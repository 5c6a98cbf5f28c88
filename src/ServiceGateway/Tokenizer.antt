-- ===== src/ServiceGateway/Tokenizer.antt =====
-- The splitting of a text at a delimiter: StringTokenizer::split
-- (libs/Common/include/Common/StringTokenizer.hpp), which reads lines that end with the delimiter until
-- nothing is left to read.
use sugo_machine_application.Prelude.{
  ℕ, ◌≡◌, ◌≢◌, ◌∙◌, refl, sym, ap, true, false, ◌==◌, if◌then◌else◌, List, [], ◌∷◌, ◌++◌,
  append-nil, append_assoc, arith, All,
}

abbrev pub Bytes : Type 0
Bytes = List ℕ

-- std::getline at the end of the text: a line that is empty there is none.
abbrev last_line : Bytes → List Bytes
last_line [] = []
last_line (c ∷ cs) = (c ∷ cs) ∷ []

-- The lines, with what is already read of the first one.
unfoldable pub lines : ℕ → Bytes → Bytes → List Bytes
lines delimiter line [] = last_line line
lines delimiter line (c ∷ cs) =
    let next = lines delimiter [] cs in
    let same = lines delimiter (line ++ c ∷ []) cs in if c == delimiter then line ∷ next else same

unfoldable pub split : ℕ → Bytes → List Bytes
unfolding lines
split delimiter text = lines delimiter [] text

-- The tokens with the delimiter between them.
abbrev pub join : ℕ → Bytes → List Bytes → Bytes
join delimiter token [] = token
join delimiter token (t ∷ ts) = token ++ delimiter ∷ join delimiter t ts

abbrev pub Without : ℕ → Bytes → Type 0
Without delimiter = All (λ c. (c == delimiter) ≡ false)

lines_over :
    (delimiter : ℕ) (line token rest : Bytes)
    → Without delimiter token
    → lines delimiter line (token ++ rest) ≡ lines delimiter (line ++ token) rest
unfolding lines
lines_over delimiter line [] rest w = ap (λ l. lines delimiter l rest) (sym (append-nil line))
lines_over delimiter line (c ∷ cs) rest w =
    rw w.0 (lines_over delimiter (line ++ c ∷ []) cs rest w.1)
    ∙ ap (λ l. lines delimiter l rest) (append_assoc line (c ∷ []) cs)

-- The last of a token and tokens is not empty.
abbrev pub LastNotEmpty : Bytes → List Bytes → Type 0
LastNotEmpty token [] = token ≢ []
LastNotEmpty token (t ∷ ts) = LastNotEmpty t ts

last_line_some : (token : Bytes) → token ≢ [] → last_line token ≡ token ∷ []
last_line_some [] h = absurd (h refl)
last_line_some (c ∷ cs) h = refl

ended :
    (delimiter : ℕ) (line rest : Bytes)
    → lines delimiter line (delimiter ∷ rest) ≡ line ∷ lines delimiter [] rest
unfolding lines
ended delimiter line rest =
    let same : (delimiter == delimiter) ≡ true = ground arith in rw same refl

-- Tokens that do not hold the delimiter, of which the last is not empty, are what their joined text is
-- split into.
pub split-join :
    (delimiter : ℕ) (token : Bytes) (tokens : List Bytes)
    → Without delimiter token
    → All (Without delimiter) tokens
    → LastNotEmpty token tokens
    → split delimiter (join delimiter token tokens) ≡ token ∷ tokens
unfolding split
split-join delimiter token [] w ws last =
    ap (lines delimiter []) (sym (append-nil token))
    ∙ lines_over delimiter [] token [] w
    ∙ last_line_some token last
split-join delimiter token (t ∷ ts) w ws last =
    lines_over delimiter [] token (delimiter ∷ join delimiter t ts) w
    ∙ ended delimiter token (join delimiter t ts)
    ∙ ap (λ rest. token ∷ rest) (split-join delimiter t ts ws.0 ws.1 last)
