-- ===== src/Framework/StateMachine/FirstMatch.antt =====
-- The search through the transition table against a relation that does not mention the search.
use sugo_machine_application.Prelude.{
  ◌≡◌, ◌↔◌, refl, sym, ap, ◌∙◌, true, inl, inr, List, [], ◌∷◌, Option, none, some, arith,
  Bool-cases, All, subst,
}
use sugo_machine_application.Framework.StateMachine.{
  Enumerated, Transition, Machine, passes, matches, find_transition, fire, process_event,
}

-- Two values with the same number are equal.
pub number_injective : {A : Type 0} (e : Enumerated A) (a b : A) → e.number a ≡ e.number b → a ≡ b
number_injective e a b h =
    some_injective (sym (e.round_trip a) ∙ ap e.from_number h ∙ e.round_trip b)
  where
    some_injective : some a ≡ some b → a ≡ b
    some_injective p = cc

module _ {S D E : Type 0} ⦃states : Enumerated S⦄ ⦃events : Enumerated E⦄ where
  -- The row is for this state and event, and its guard passes.
  pub record Enabled (m : Machine S D E) (e : E) (t : Transition S D E) : Type 0 where
    pub state_is : m.state ≡ t.state
    pub event_is : e ≡ t.event
    pub guard_passes : passes t.guard m.world ≡ true

  matches→Enabled :
      (m : Machine S D E) (e : E) (t : Transition S D E) → matches m e t ≡ true → Enabled m e t
  unfolding matches
  matches→Enabled m e t h = record {
    state_is = number_injective states m.state t.state (ground arith);
    event_is = number_injective events e t.event (ground arith);
    guard_passes = ground arith;
  }

  Enabled→matches :
      (m : Machine S D E) (e : E) (t : Transition S D E) → Enabled m e t → matches m e t ≡ true
  unfolding matches
  Enabled→matches m e t h = ground (arith, ap states.number h.state_is, ap events.number h.event_is)

  -- The first enabled row of a table.
  pub data Selects (m : Machine S D E) (e : E)
      : List (Transition S D E) → Transition S D E → Type 0 where
    here :
        {t : Transition S D E} {ts : List (Transition S D E)}
        → Enabled m e t
        → Selects m e (t ∷ ts) t
    later :
        {t u : Transition S D E} {ts : List (Transition S D E)}
        → ¬ Enabled m e u
        → Selects m e ts t
        → Selects m e (u ∷ ts) t

  find→Selects :
      (m : Machine S D E) (e : E) (table : List (Transition S D E)) (t : Transition S D E)
      → find_transition m e table ≡ some t
      → Selects m e table t
  unfolding find_transition
  find→Selects m e [] t h = cc
  find→Selects m e (u ∷ ts) t h = elim (Bool-cases (matches m e u)) [
    | inl hit ↦ subst_head (ground arith) (here (matches→Enabled m e u hit))
    | inr miss ↦
        later (λ enabled. cc (miss, Enabled→matches m e u enabled))
          (find→Selects m e ts t (ground arith))
  ]
    where
      subst_head : u ≡ t → Selects m e (u ∷ ts) u → Selects m e (u ∷ ts) t
      subst_head p s = subst (λ x. Selects m e (u ∷ ts) x) p s

  Selects→find :
      (m : Machine S D E) (e : E) (table : List (Transition S D E)) (t : Transition S D E)
      → Selects m e table t
      → find_transition m e table ≡ some t
  unfolding find_transition
  Selects→find m e [] t s = elim s [ ]
  Selects→find m e (u ∷ ts) t (here enabled) = ground (arith, Enabled→matches m e u enabled)
  Selects→find m e (u ∷ ts) t (later not_enabled rest) = elim (Bool-cases (matches m e u)) [
    | inl hit ↦ absurd (not_enabled (matches→Enabled m e u hit))
    | inr miss ↦ ground (arith, Selects→find m e ts t rest)
  ]

  find-none :
      (m : Machine S D E) (e : E) (table : List (Transition S D E))
      → find_transition m e table ≡ none
      → All (λ t. ¬ Enabled m e t) table
  unfolding find_transition
  find-none m e [] h = tt
  find-none m e (t ∷ ts) h =
      (λ enabled. ground (arith, Enabled→matches m e t enabled), find-none m e ts (ground (arith)))

  -- `processEvent` fires exactly the first row of the table that is enabled.
  pub process_event-Selects :
      (table : List (Transition S D E)) (e : E) (m m' : Machine S D E)
      → (process_event table e m ≡ some m')
        ↔ ((t : Transition S D E) × Selects m e table t × (m' ≡ fire e t m))
  unfolding process_event
  process_event-Selects table e m m' = (forth (find_transition m e table) refl, back)
    where
      forth :
          (found : Option (Transition S D E))
          → find_transition m e table ≡ found
          → process_event table e m ≡ some m'
          → (t : Transition S D E) × Selects m e table t × (m' ≡ fire e t m)
      forth none p h = ground arith
      forth (some t) p h = (t, find→Selects m e table t p, ground arith)

      back :
          ((t : Transition S D E) × Selects m e table t × (m' ≡ fire e t m))
          → process_event table e m ≡ some m'
      back (t, s, p) = rw (Selects→find m e table t s, process_event) (ap some (sym p))

  -- It refuses an event exactly when no row is enabled: nothing is enabled then.
  pub process_event-none :
      (table : List (Transition S D E)) (e : E) (m : Machine S D E)
      → process_event table e m ≡ none
      → All (λ t. ¬ Enabled m e t) table
  unfolding process_event
  process_event-none table e m h = find-none m e table (ground arith)
