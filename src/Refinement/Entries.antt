-- ===== src/Refinement/Entries.antt =====
-- What the statements on `entries` are on the map.
use gocachez.Prelude.{
  ◌≡◌, ◌⊎◌, refl, sym, ap, ◌∙◌, Bool, true, false, ◌&&◌, none, find, same, same_iff, arith,
  Bool-cases, Option-cases, inl, inr, if◌then◌else◌,
}
use gocachez.Prelude.Int.{ℤ}
use gocachez.Catalog.{Key, EntryRow, Catalog, update_where, delete_where, has_action_id}
use gocachez.Catalog.Tables.{
  find_test, find-update_where, find-delete_where_ne, find-delete_where_self,
}
use gocachez.Catalog.WellFormed.{IsWellFormed, OtherAction}
use gocachez.Catalog.Found.{find-delete_where-none, find-delete_where_kept, find-delete_where_gone}
use gocachez.Refinement.View.{named_by, named}

only_action :
    (a : Key) (x y : EntryRow)
    → OtherAction x y
    → has_action_id a x ≡ true
    → has_action_id a y ≡ false
only_action a x y u t = elim (Bool-cases (has_action_id a y)) [
  | inr f ↦ f
  | inl h ↦ absurd (u ((same_iff x.action_id a).0 t ∙ sym ((same_iff y.action_id a).0 h)))
]

-- Rows of two different actions.
pub not_both :
    (a b : Key) (e : EntryRow)
    → same b a ≡ false
    → has_action_id a e ≡ true
    → has_action_id b e ≡ false
not_both a b e f t = elim (Bool-cases (has_action_id b e)) [
  | inr g ↦ g
  | inl h ↦ absurd (
      ground (
        arith,
        f,
        (same_iff b a).1 (sym ((same_iff e.action_id b).0 h) ∙ (same_iff e.action_id a).0 t),
      ))
]

pub named-touch_entry :
    (b : Key) (at : ℤ) (c : Catalog) (a : Key)
    → named
        (record c {
          entries = update_where (has_action_id b) (λ e. record e { accessed_at = at }) c.entries;
        })
        a
      ≡ named c a
unfolding named_by
named-touch_entry b at c a =
    ap (λ r. named_by r c.outputs)
      (find-update_where (has_action_id a) (has_action_id b) (λ e. record e { accessed_at = at })
        c.entries (λ e. refl))
    ∙ elim (Option-cases (find (has_action_id a) c.entries)) [
      | inl n ↦ rw n refl
      | inr (e, h) ↦ elim (Bool-cases (has_action_id b e)) [
        | inl t ↦ rw (h, t) refl
        | inr f ↦ rw (h, f) refl
      ]
    ]

pub named-delete_action :
    (b : Key) (c : Catalog) (a : Key)
    → named (record c { entries = delete_where (has_action_id b) c.entries }) a
      ≡ (if same b a then none else named c a)
unfolding named_by
named-delete_action b c a = elim (Bool-cases (same b a)) [
  | inl t ↦
      let eq : b ≡ a = (same_iff b a).0 t in
      rw t (
        ap
          (λ q.
            named_by (find (has_action_id a) (delete_where (has_action_id q) c.entries)) c.outputs)
          eq
        ∙ rw (find-delete_where_self (has_action_id a) c.entries) refl)
  | inr f ↦ rw f (
      ap (λ r. named_by r c.outputs)
        (find-delete_where_ne (has_action_id a) (has_action_id b) c.entries
          (λ e t. not_both a b e f t)))
]

pub named-expire_entry :
    (b : Key) (old : EntryRow → Bool) (c : Catalog) (a : Key)
    → IsWellFormed c
    → (named (record c { entries = delete_where (λ e. has_action_id b e && old e) c.entries }) a
        ≡ named c a)
      ⊎ (named (record c { entries = delete_where (λ e. has_action_id b e && old e) c.entries }) a
          ≡ (if same b a then none else named c a))
unfolding named_by
named-expire_entry b old c a w = elim (Option-cases (find (has_action_id a) c.entries)) [
  | inl n ↦ inl (
      ap (λ r. named_by r c.outputs)
        (find-delete_where-none (has_action_id a) doomed c.entries n ∙ sym n))
  | inr (e, h) ↦ elim (Bool-cases (doomed e)) [
    | inr f ↦ inl (
        ap (λ r. named_by r c.outputs)
          (find-delete_where_kept (has_action_id a) doomed c.entries e h f ∙ sym h))
    | inl t ↦
        let of_b : e.action_id ≡ b = (same_iff e.action_id b).0 (ground (arith, t)) in
        let of_a : e.action_id ≡ a =
          (same_iff e.action_id a).0 (find_test (has_action_id a) c.entries e h) in
        let eq : same b a ≡ true = (same_iff b a).1 (sym of_b ∙ of_a) in
        inr (
          rw
            (
              eq,
              find-delete_where_gone (has_action_id a) OtherAction (only_action a) doomed c.entries
                  e w.actions h t,
            )
            refl)
  ]
]
  where
    doomed : EntryRow → Bool
    doomed e = has_action_id b e && old e
