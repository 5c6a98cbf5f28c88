-- ===== src/MessageBroker/Subscriptions/SocketArray.antt =====
-- The array of a subscriber's sockets and the map of its subscriptions.
use sugo_machine_application.Prelude.{
  ℕ, zero, suc, ◌≡◌, ◌≢◌, refl, Bool, true, false, not, List, [], ◌∷◌, none, some, arith, All,
}
use sugo_machine_application.MessageBroker.{find, erase}
use sugo_machine_application.MessageBroker.Identifier.{Bytes}
use sugo_machine_application.MessageBroker.Client.{eqb_bytes}
use sugo_machine_application.MessageBroker.Subscriber.{
  find_socket, get_subscription_count, set_address,
}

-- The address is not the empty one.
abbrev pub is_address : Bytes → Bool
is_address a = not (eqb_bytes a [])

-- Whether there is a connected socket at a place.
abbrev pub connected_at : ℕ → List Bytes → Bool
connected_at i [] = false
connected_at zero (a ∷ others) = is_address a
connected_at (suc i) (a ∷ others) = connected_at i others

-- No two sockets have the same address.
abbrev pub Unique : List Bytes → Type 0
Unique [] = Unit
Unique (a ∷ others) = (is_address a ≡ true → find_socket a others ≡ none) × Unique others

abbrev pub Connected : List Bytes → List (ℕ × ℕ) → Type 0
Connected others entries = All (λ entry. connected_at entry.1 others ≡ true) entries

-- Equality of addresses

pub eqb_bytes_nil : (a : Bytes) → eqb_bytes a [] ≡ true → a ≡ []
eqb_bytes_nil [] h = refl
eqb_bytes_nil (c ∷ cs) h = cc

pub eqb_bytes_sym : (a b : Bytes) → eqb_bytes a b ≡ eqb_bytes b a
eqb_bytes_sym [] [] = refl
eqb_bytes_sym [] (c ∷ cs) = refl
eqb_bytes_sym (b ∷ bs) [] = refl
eqb_bytes_sym (b ∷ bs) (c ∷ cs) = ground (arith, eqb_bytes_sym bs cs)

-- An address that equals one that is not empty is not empty.
pub eqb_bytes-is_address :
    (a b : Bytes) → eqb_bytes a b ≡ true → is_address b ≡ true → is_address a ≡ true
eqb_bytes-is_address [] [] h k = k
eqb_bytes-is_address [] (c ∷ cs) h k = cc
eqb_bytes-is_address (b ∷ bs) d h k = refl

-- The array of sockets

pub connected_at-find_socket :
    (a : Bytes) (others : List Bytes) (i : ℕ)
    → is_address a ≡ true
    → find_socket a others ≡ some i
    → connected_at i others ≡ true
unfolding find_socket
connected_at-find_socket a [] i h e = cc
connected_at-find_socket a (x ∷ others) zero h e = ground (arith, eqb_bytes-is_address x a)
connected_at-find_socket a (x ∷ others) (suc i) h e =
    ground (arith, connected_at-find_socket a others i h)

pub connected_at-set_address :
    (j k : ℕ) (a : Bytes) (others : List Bytes)
    → is_address a ≡ true
    → connected_at k others ≡ true
    → connected_at k (set_address j a others) ≡ true
unfolding set_address
connected_at-set_address j k a [] h e = e
connected_at-set_address zero zero a (x ∷ others) h e = h
connected_at-set_address zero (suc k) a (x ∷ others) h e = e
connected_at-set_address (suc j) zero a (x ∷ others) h e = e
connected_at-set_address (suc j) (suc k) a (x ∷ others) h e =
    connected_at-set_address j k a others h e

pub connected_at-set_address_other :
    (j k : ℕ) (a : Bytes) (others : List Bytes)
    → k ≢ j
    → connected_at k others ≡ true
    → connected_at k (set_address j a others) ≡ true
unfolding set_address
connected_at-set_address_other j k a [] h e = e
connected_at-set_address_other zero zero a (x ∷ others) h e = absurd (h refl)
connected_at-set_address_other zero (suc k) a (x ∷ others) h e = e
connected_at-set_address_other (suc j) zero a (x ∷ others) h e = e
connected_at-set_address_other (suc j) (suc k) a (x ∷ others) h e =
    connected_at-set_address_other j k a others (λ p. h (cc)) e

pub connected_at-set_address_found :
    (b a : Bytes) (others : List Bytes) (j : ℕ)
    → is_address a ≡ true
    → find_socket b others ≡ some j
    → connected_at j (set_address j a others) ≡ true
unfolding find_socket set_address
connected_at-set_address_found b a [] j h e = cc
connected_at-set_address_found b a (x ∷ others) zero h e = h
connected_at-set_address_found b a (x ∷ others) (suc j) h e =
    connected_at-set_address_found b a others j h (ground arith)

-- Clearing a new connection again.
pub set_address_back :
    (a : Bytes) (others : List Bytes) (j : ℕ)
    → find_socket [] others ≡ some j
    → set_address j [] (set_address j a others) ≡ others
unfolding find_socket set_address
set_address_back a [] j e = refl
set_address_back a (x ∷ others) zero e = ground (arith, eqb_bytes_nil x)
set_address_back a (x ∷ others) (suc j) e = ground (arith, set_address_back a others j)

pub find_socket-set_address :
    (x a : Bytes) (j : ℕ) (others : List Bytes)
    → find_socket x others ≡ none
    → eqb_bytes a x ≡ false
    → find_socket x (set_address j a others) ≡ none
unfolding find_socket set_address
find_socket-set_address x a j [] e h = e
find_socket-set_address x a zero (y ∷ others) e h = ground arith
find_socket-set_address x a (suc j) (y ∷ others) e h =
    ground (arith, find_socket-set_address x a j others)

pub eqb_bytes-not_first :
    (a x : Bytes) (others : List Bytes)
    → (is_address a ≡ true → find_socket a (x ∷ others) ≡ none)
    → is_address x ≡ true
    → eqb_bytes a x ≡ false
unfolding find_socket
eqb_bytes-not_first [] x others h k = ground (arith, eqb_bytes_sym x [])
eqb_bytes-not_first (c ∷ cs) x others h k = ground (arith, h refl, eqb_bytes_sym x (c ∷ cs))

pub set_address-Unique :
    (a : Bytes) (j : ℕ) (others : List Bytes)
    → (is_address a ≡ true → find_socket a others ≡ none)
    → Unique others
    → Unique (set_address j a others)
unfolding find_socket set_address
set_address-Unique a j [] h u = u
set_address-Unique a zero (x ∷ others) h (first, u) = (λ k. ground (arith, h k), u)
set_address-Unique a (suc j) (x ∷ others) h (first, u) = (
  λ k. find_socket-set_address x a j others (first k) (eqb_bytes-not_first a x others h k),
  set_address-Unique a j others (λ k. ground (arith, h k)) u,
)

-- The subscriptions

pub erase-Connected :
    (id : ℕ) (others : List Bytes) (entries : List (ℕ × ℕ))
    → Connected others entries
    → Connected others (erase id entries)
unfolding erase
erase-Connected id others [] h = h
erase-Connected id others ((key, i) ∷ rest) (first, h) =
    ground (arith, erase-Connected id others rest h)

pub set_address-Connected :
    (j : ℕ) (a : Bytes) (others : List Bytes) (entries : List (ℕ × ℕ))
    → is_address a ≡ true
    → Connected others entries
    → Connected (set_address j a others) entries
set_address-Connected j a others [] e h = h
set_address-Connected j a others (entry ∷ rest) e (first, h) =
    (connected_at-set_address j entry.1 a others e first, set_address-Connected j a others rest e h)

-- A socket without a subscription can be cleared.
pub clear-Connected :
    (j : ℕ) (others : List Bytes) (entries : List (ℕ × ℕ))
    → get_subscription_count j entries ≡ 0
    → Connected others entries
    → Connected (set_address j [] others) entries
unfolding get_subscription_count
clear-Connected j others [] e h = h
clear-Connected j others ((id, i) ∷ rest) e (first, h) = (
  connected_at-set_address_other j i [] others (ground arith) first,
  clear-Connected j others rest (ground arith) h,
)

pub found-Connected :
    (id i : ℕ) (others : List Bytes) (entries : List (ℕ × ℕ))
    → Connected others entries
    → find id entries ≡ some i
    → connected_at i others ≡ true
unfolding find
found-Connected id i others [] h e = cc
found-Connected id i others ((key, k) ∷ rest) (first, h) e =
    ground (arith, found-Connected id i others rest h)
