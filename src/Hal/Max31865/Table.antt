-- ===== src/Hal/Max31865/Table.antt =====
-- The temperatures of the sensor's resistances: ResistanceToTemperatureLookUpTable
-- (libs/HardwareAbstractionLayerImpl/Rpi/src/Max31865.cpp), in tenths of an ohm and in degrees
-- Celsius.
use sugo_machine_application.Prelude.{ℕ, List, [], ◌∷◌}
use sugo_machine_application.Prelude.Int.{ℤ, pos, negsuc}

pub record ResistanceTemperature : Type 0 where
  pub resistance : ℕ
  pub temperature : ℤ

abbrev at : ℕ → ℤ → ResistanceTemperature
at r t = record { resistance = r; temperature = t }

unfoldable pub resistance_to_temperature_look_up_table : List ResistanceTemperature
resistance_to_temperature_look_up_table =
    at 8031 (negsuc 49)
    ∷ at 8070 (negsuc 48)
    ∷ at 8110 (negsuc 47)
    ∷ at 8150 (negsuc 46)
    ∷ at 8189 (negsuc 45)
    ∷ at 8229 (negsuc 44)
    ∷ at 8269 (negsuc 43)
    ∷ at 8308 (negsuc 42)
    ∷ at 8348 (negsuc 41)
    ∷ at 8387 (negsuc 40)
    ∷ at 8427 (negsuc 39)
    ∷ at 8467 (negsuc 38)
    ∷ at 8506 (negsuc 37)
    ∷ at 8546 (negsuc 36)
    ∷ at 8585 (negsuc 35)
    ∷ at 8625 (negsuc 34)
    ∷ at 8664 (negsuc 33)
    ∷ at 8704 (negsuc 32)
    ∷ at 8743 (negsuc 31)
    ∷ at 8783 (negsuc 30)
    ∷ at 8822 (negsuc 29)
    ∷ at 8862 (negsuc 28)
    ∷ at 8901 (negsuc 27)
    ∷ at 8940 (negsuc 26)
    ∷ at 8980 (negsuc 25)
    ∷ at 9019 (negsuc 24)
    ∷ at 9059 (negsuc 23)
    ∷ at 9098 (negsuc 22)
    ∷ at 9137 (negsuc 21)
    ∷ at 9177 (negsuc 20)
    ∷ at 9216 (negsuc 19)
    ∷ at 9255 (negsuc 18)
    ∷ at 9295 (negsuc 17)
    ∷ at 9334 (negsuc 16)
    ∷ at 9373 (negsuc 15)
    ∷ at 9412 (negsuc 14)
    ∷ at 9452 (negsuc 13)
    ∷ at 9491 (negsuc 12)
    ∷ at 9530 (negsuc 11)
    ∷ at 9569 (negsuc 10)
    ∷ at 9609 (negsuc 9)
    ∷ at 9648 (negsuc 8)
    ∷ at 9687 (negsuc 7)
    ∷ at 9726 (negsuc 6)
    ∷ at 9765 (negsuc 5)
    ∷ at 9804 (negsuc 4)
    ∷ at 9844 (negsuc 3)
    ∷ at 9883 (negsuc 2)
    ∷ at 9922 (negsuc 1)
    ∷ at 9961 (negsuc 0)
    ∷ at 10000 (pos 0)
    ∷ at 10039 (pos 1)
    ∷ at 10078 (pos 2)
    ∷ at 10117 (pos 3)
    ∷ at 10156 (pos 4)
    ∷ at 10195 (pos 5)
    ∷ at 10234 (pos 6)
    ∷ at 10273 (pos 7)
    ∷ at 10312 (pos 8)
    ∷ at 10351 (pos 9)
    ∷ at 10390 (pos 10)
    ∷ at 10429 (pos 11)
    ∷ at 10468 (pos 12)
    ∷ at 10507 (pos 13)
    ∷ at 10546 (pos 14)
    ∷ at 10585 (pos 15)
    ∷ at 10624 (pos 16)
    ∷ at 10663 (pos 17)
    ∷ at 10702 (pos 18)
    ∷ at 10740 (pos 19)
    ∷ at 10779 (pos 20)
    ∷ at 10818 (pos 21)
    ∷ at 10857 (pos 22)
    ∷ at 10896 (pos 23)
    ∷ at 10935 (pos 24)
    ∷ at 10973 (pos 25)
    ∷ at 11012 (pos 26)
    ∷ at 11051 (pos 27)
    ∷ at 11090 (pos 28)
    ∷ at 11129 (pos 29)
    ∷ at 11167 (pos 30)
    ∷ at 11206 (pos 31)
    ∷ at 11245 (pos 32)
    ∷ at 11283 (pos 33)
    ∷ at 11322 (pos 34)
    ∷ at 11361 (pos 35)
    ∷ at 11400 (pos 36)
    ∷ at 11438 (pos 37)
    ∷ at 11477 (pos 38)
    ∷ at 11515 (pos 39)
    ∷ at 11554 (pos 40)
    ∷ at 11593 (pos 41)
    ∷ at 11631 (pos 42)
    ∷ at 11670 (pos 43)
    ∷ at 11708 (pos 44)
    ∷ at 11747 (pos 45)
    ∷ at 11786 (pos 46)
    ∷ at 11824 (pos 47)
    ∷ at 11863 (pos 48)
    ∷ at 11901 (pos 49)
    ∷ at 11940 (pos 50)
    ∷ at 11978 (pos 51)
    ∷ at 12017 (pos 52)
    ∷ at 12055 (pos 53)
    ∷ at 12094 (pos 54)
    ∷ at 12132 (pos 55)
    ∷ at 12171 (pos 56)
    ∷ at 12209 (pos 57)
    ∷ at 12247 (pos 58)
    ∷ at 12286 (pos 59)
    ∷ at 12324 (pos 60)
    ∷ at 12363 (pos 61)
    ∷ at 12401 (pos 62)
    ∷ at 12439 (pos 63)
    ∷ at 12478 (pos 64)
    ∷ at 12516 (pos 65)
    ∷ at 12554 (pos 66)
    ∷ at 12593 (pos 67)
    ∷ at 12631 (pos 68)
    ∷ at 12669 (pos 69)
    ∷ at 12708 (pos 70)
    ∷ at 12746 (pos 71)
    ∷ at 12784 (pos 72)
    ∷ at 12822 (pos 73)
    ∷ at 12861 (pos 74)
    ∷ at 12899 (pos 75)
    ∷ at 12937 (pos 76)
    ∷ at 12975 (pos 77)
    ∷ at 13013 (pos 78)
    ∷ at 13052 (pos 79)
    ∷ at 13090 (pos 80)
    ∷ at 13128 (pos 81)
    ∷ at 13166 (pos 82)
    ∷ at 13204 (pos 83)
    ∷ at 13242 (pos 84)
    ∷ at 13280 (pos 85)
    ∷ at 13318 (pos 86)
    ∷ at 13357 (pos 87)
    ∷ at 13395 (pos 88)
    ∷ at 13433 (pos 89)
    ∷ at 13471 (pos 90)
    ∷ at 13509 (pos 91)
    ∷ at 13547 (pos 92)
    ∷ at 13585 (pos 93)
    ∷ at 13623 (pos 94)
    ∷ at 13661 (pos 95)
    ∷ at 13699 (pos 96)
    ∷ at 13737 (pos 97)
    ∷ at 13775 (pos 98)
    ∷ at 13813 (pos 99)
    ∷ at 13851 (pos 100)
    ∷ at 13888 (pos 101)
    ∷ at 13926 (pos 102)
    ∷ at 13964 (pos 103)
    ∷ at 14002 (pos 104)
    ∷ at 14040 (pos 105)
    ∷ at 14078 (pos 106)
    ∷ at 14116 (pos 107)
    ∷ at 14154 (pos 108)
    ∷ at 14191 (pos 109)
    ∷ at 14229 (pos 110)
    ∷ at 14267 (pos 111)
    ∷ at 14305 (pos 112)
    ∷ at 14343 (pos 113)
    ∷ at 14380 (pos 114)
    ∷ at 14418 (pos 115)
    ∷ at 14456 (pos 116)
    ∷ at 14494 (pos 117)
    ∷ at 14531 (pos 118)
    ∷ at 14569 (pos 119)
    ∷ at 14607 (pos 120)
    ∷ at 14644 (pos 121)
    ∷ at 14682 (pos 122)
    ∷ at 14720 (pos 123)
    ∷ at 14757 (pos 124)
    ∷ at 14795 (pos 125)
    ∷ at 14833 (pos 126)
    ∷ at 14870 (pos 127)
    ∷ at 14908 (pos 128)
    ∷ at 14946 (pos 129)
    ∷ at 14983 (pos 130)
    ∷ at 15021 (pos 131)
    ∷ at 15058 (pos 132)
    ∷ at 15096 (pos 133)
    ∷ at 15133 (pos 134)
    ∷ at 15171 (pos 135)
    ∷ at 15208 (pos 136)
    ∷ at 15246 (pos 137)
    ∷ at 15283 (pos 138)
    ∷ at 15321 (pos 139)
    ∷ at 15358 (pos 140)
    ∷ at 15396 (pos 141)
    ∷ at 15433 (pos 142)
    ∷ at 15471 (pos 143)
    ∷ at 15508 (pos 144)
    ∷ at 15546 (pos 145)
    ∷ at 15583 (pos 146)
    ∷ at 15620 (pos 147)
    ∷ at 15658 (pos 148)
    ∷ at 15695 (pos 149)
    ∷ at 15733 (pos 150)
    ∷ at 15770 (pos 151)
    ∷ at 15807 (pos 152)
    ∷ at 15845 (pos 153)
    ∷ at 15882 (pos 154)
    ∷ at 15919 (pos 155)
    ∷ at 15956 (pos 156)
    ∷ at 15994 (pos 157)
    ∷ at 16031 (pos 158)
    ∷ at 16068 (pos 159)
    ∷ at 16105 (pos 160)
    ∷ at 16143 (pos 161)
    ∷ at 16180 (pos 162)
    ∷ at 16217 (pos 163)
    ∷ at 16254 (pos 164)
    ∷ at 16291 (pos 165)
    ∷ at 16329 (pos 166)
    ∷ at 16366 (pos 167)
    ∷ at 16403 (pos 168)
    ∷ at 16440 (pos 169)
    ∷ at 16477 (pos 170)
    ∷ at 16514 (pos 171)
    ∷ at 16551 (pos 172)
    ∷ at 16589 (pos 173)
    ∷ at 16626 (pos 174)
    ∷ at 16663 (pos 175)
    ∷ at 16700 (pos 176)
    ∷ at 16737 (pos 177)
    ∷ at 16774 (pos 178)
    ∷ at 16811 (pos 179)
    ∷ at 16848 (pos 180)
    ∷ at 16885 (pos 181)
    ∷ at 16922 (pos 182)
    ∷ at 16959 (pos 183)
    ∷ at 16996 (pos 184)
    ∷ at 17033 (pos 185)
    ∷ at 17070 (pos 186)
    ∷ at 17107 (pos 187)
    ∷ at 17143 (pos 188)
    ∷ at 17180 (pos 189)
    ∷ at 17217 (pos 190)
    ∷ at 17254 (pos 191)
    ∷ at 17291 (pos 192)
    ∷ at 17328 (pos 193)
    ∷ at 17365 (pos 194)
    ∷ at 17402 (pos 195)
    ∷ at 17438 (pos 196)
    ∷ at 17475 (pos 197)
    ∷ at 17512 (pos 198)
    ∷ at 17549 (pos 199)
    ∷ at 17586 (pos 200)
    ∷ at 17622 (pos 201)
    ∷ at 17659 (pos 202)
    ∷ at 17696 (pos 203)
    ∷ at 17733 (pos 204)
    ∷ at 17769 (pos 205)
    ∷ at 17806 (pos 206)
    ∷ at 17843 (pos 207)
    ∷ at 17879 (pos 208)
    ∷ at 17916 (pos 209)
    ∷ at 17953 (pos 210)
    ∷ at 17989 (pos 211)
    ∷ at 18026 (pos 212)
    ∷ at 18063 (pos 213)
    ∷ at 18099 (pos 214)
    ∷ at 18136 (pos 215)
    ∷ at 18172 (pos 216)
    ∷ at 18209 (pos 217)
    ∷ at 18246 (pos 218)
    ∷ at 18282 (pos 219)
    ∷ at 18319 (pos 220)
    ∷ at 18355 (pos 221)
    ∷ at 18392 (pos 222)
    ∷ at 18428 (pos 223)
    ∷ at 18465 (pos 224)
    ∷ at 18501 (pos 225)
    ∷ at 18538 (pos 226)
    ∷ at 18574 (pos 227)
    ∷ at 18611 (pos 228)
    ∷ at 18647 (pos 229)
    ∷ at 18684 (pos 230)
    ∷ at 18720 (pos 231)
    ∷ at 18756 (pos 232)
    ∷ at 18793 (pos 233)
    ∷ at 18829 (pos 234)
    ∷ at 18866 (pos 235)
    ∷ at 18902 (pos 236)
    ∷ at 18938 (pos 237)
    ∷ at 18975 (pos 238)
    ∷ at 19011 (pos 239)
    ∷ at 19047 (pos 240)
    ∷ at 19084 (pos 241)
    ∷ at 19120 (pos 242)
    ∷ at 19156 (pos 243)
    ∷ at 19192 (pos 244)
    ∷ at 19229 (pos 245)
    ∷ at 19265 (pos 246)
    ∷ at 19301 (pos 247)
    ∷ at 19337 (pos 248)
    ∷ at 19374 (pos 249)
    ∷ at 19410 (pos 250)
    ∷ []
