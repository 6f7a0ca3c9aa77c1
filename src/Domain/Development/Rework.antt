-- ===== src/Domain/Development/Rework.antt =====
-- What an accepted set of rework resolutions is (src/devloop/domain/development.py).
use devloop.Prelude.{
  refl, any_none, Distinct→all_unique, any_intro, false≢true, inr, inl, Bool-cases, guard-eq-ok,
  contains_intro, ◌∙◌, all_unique→Distinct, any, sym, all_intro, raise_if-eq-ok, contains_elim,
  all_unique, guard, &&-eq_true, text_same, all_elim, >>=-eq-ok, bool_eq_of_iff, Memᴰ, not,
  contains, ◌↔◌, ok, true, map, ◌≡◌, Distinct, String, List,
}
use devloop.Domain.Development.{
  ReworkResolution, same_set, is_settled, validate_rework_resolutions, repeated_request,
  repeated_resolution, not_covered, left_unresolved,
}

-- Each requested item has one resolution and no other has any, and every one is settled.
pub record IsAnswered (expected_ids : List String) (resolutions : List ReworkResolution)
    : Type 0 where
  pub requested_once : Distinct expected_ids
  pub answered_once : Distinct (map (λ (item : ReworkResolution). item.rework_id) resolutions)
  pub answers :
      (a : String)
      → contains (map (λ (item : ReworkResolution). item.rework_id) resolutions) a
        ≡ contains expected_ids a
  pub settled : (item : ReworkResolution) → Memᴰ item resolutions → is_settled item.status ≡ true

pub same_set_iff :
    (xs ys : List String) → (same_set xs ys ≡ true) ↔ ((a : String) → contains xs a ≡ contains ys a)
same_set_iff xs ys = (
  λ h a.
      bool_eq_of_iff (contains xs a) (contains ys a)
        (λ m. all_elim (contains ys) xs (&&-eq_true _ _ h).0 (contains_elim xs a m))
        (λ m. all_elim (contains xs) ys (&&-eq_true _ _ h).1 (contains_elim ys a m)),
  λ h.
      rw (all_intro (contains ys) xs (λ a m. sym (h a) ∙ contains_intro xs m))
        (all_intro (contains xs) ys (λ a m. h a ∙ contains_intro ys m)),
)

-- The resolutions of a rework are accepted exactly when no item is requested twice, none is
-- resolved twice, the resolved items are the requested ones, and each resolution is RESOLVED or
-- NOT_APPLICABLE.
pub validate_rework_iff :
    (expected_ids : List String) (resolutions : List ReworkResolution)
    → (validate_rework_resolutions expected_ids resolutions ≡ ok tt)
      ↔ IsAnswered expected_ids resolutions
unfolding validate_rework_resolutions
validate_rework_iff expected_ids resolutions =
    let actual_ids = map (λ (item : ReworkResolution). item.rework_id) resolutions in
    let open_item = λ (item : ReworkResolution). not (is_settled item.status) in
    (
      λ h.
          let (_, once, h1) = >>=-eq-ok (guard (all_unique expected_ids) repeated_request) _ h in
          let (_, unique, h2) =
            >>=-eq-ok (guard (all_unique actual_ids) repeated_resolution) _ h1 in
          let (_, covered, h3) =
            >>=-eq-ok (guard (same_set actual_ids expected_ids) not_covered) _ h2 in
          let done = raise_if-eq-ok (any open_item resolutions) left_unresolved h3 in
          record {
            requested_once = all_unique→Distinct expected_ids (guard-eq-ok _ _ once);
            answered_once = all_unique→Distinct actual_ids (guard-eq-ok _ _ unique);
            answers = (same_set_iff actual_ids expected_ids).0 (guard-eq-ok _ _ covered);
            settled = λ item m. elim (Bool-cases (is_settled item.status)) [
              | inl fine ↦ fine
              | inr bad ↦
                  absurd (false≢true (sym done ∙ any_intro open_item resolutions m (rw bad refl)))
            ];
          },
      λ r. rw (Distinct→all_unique expected_ids r.requested_once) (
          rw (Distinct→all_unique actual_ids r.answered_once) (
            rw ((same_set_iff actual_ids expected_ids).1 r.answers)
              (rw (any_none open_item resolutions (λ item m. rw (r.settled item m) refl)) refl))),
    )
