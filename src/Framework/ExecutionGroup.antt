-- ===== src/Framework/ExecutionGroup.antt =====
-- libs/ServiceComponent/include/ServiceComponent/ExecutionGroup.hpp: the start and the stop of the
-- components of a group, one after the other. What a bundle is and whether it starts is the
-- template parameter of the class, here a type and a test.
use sugo_machine_application.Prelude.{
  ◌≡◌, ◌⊎◌, inl, inr, refl, Bool, true, false, ◌&&◌, if◌then◌else◌, List, [], ◌∷◌, ◌++◌, arith, All,
  Bool-cases, ap,
}

module _ {B : Type 0} where
  -- `start`: the conjunction ends at the first bundle that fails. The list is that of the bundles
  -- whose start was called.
  unfoldable pub start : (B → Bool) → List B → Bool → Bool × List B
  start starts [] success = (success, [])
  start starts (b ∷ bs) success =
      let (succeeded, called) = start starts bs (success && starts b) in
      (succeeded, if success then b ∷ called else called)

  -- `stop`: every bundle is stopped.
  unfoldable pub stop : List B → List B
  stop [] = []
  stop (b ∷ bs) = b ∷ stop bs

  start_failed : (starts : B → Bool) (bs : List B) → start starts bs false ≡ (false, [])
  unfolding start
  start_failed starts [] = refl
  start_failed starts (b ∷ bs) = ground (arith, start_failed starts bs)

  -- The first bundle that does not start.
  pub record FirstFailure (starts : B → Bool) (bs called : List B) : Type 0 where
    pub before : List B
    pub failed : B
    pub after : List B
    pub split : bs ≡ before ++ failed ∷ after
    pub before_started : All (λ b. starts b ≡ true) before
    pub failed_not_started : starts failed ≡ false
    pub called_up_to_failed : called ≡ before ++ failed ∷ []

  -- The start of a group either succeeds, and then each bundle was called in order and has started,
  -- or fails, and then the bundles were called in order up to the first one that does not start and
  -- no further; those before it have started.
  pub start_group_lem :
      (starts : B → Bool) (bs : List B)
      → let (succeeded, called) = start starts bs true in
        ((succeeded ≡ true) × (called ≡ bs) × All (λ b. starts b ≡ true) bs)
        ⊎ ((succeeded ≡ false) × FirstFailure starts bs called)
  unfolding start
  start_group_lem starts [] = inl (refl, refl, tt)
  start_group_lem starts (b ∷ bs) = elim (Bool-cases (starts b)) [
    | inl hit ↦ elim (start_group_lem starts bs) [
      | inl all ↦ inl (rw hit all.0, rw hit (ap (λ x. b ∷ x) all.1), (hit, all.2))
      | inr some_fail ↦ inr (
        rw hit some_fail.0,
        record {
          before = b ∷ some_fail.1.before;
          failed = some_fail.1.failed;
          after = some_fail.1.after;
          split = ap (λ x. b ∷ x) some_fail.1.split;
          before_started = (hit, some_fail.1.before_started);
          failed_not_started = some_fail.1.failed_not_started;
          called_up_to_failed = rw hit (ap (λ x. b ∷ x) some_fail.1.called_up_to_failed);
        },
      )
    ]
    | inr miss ↦ inr (
      rw (miss, start_failed starts bs) refl,
      record {
        before = [];
        failed = b;
        after = bs;
        split = refl;
        before_started = tt;
        failed_not_started = miss;
        called_up_to_failed = rw (miss, start_failed starts bs) refl;
      },
    )
  ]
