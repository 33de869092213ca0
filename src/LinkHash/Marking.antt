-- ===== src/LinkHash/Marking.antt =====
-- The deletion of a tuple by its key, up to its end: what `lk_ha_mark_delete` does to the pool.
use dawn.Base.{
  ℕ, ◌≡◌, refl, ap, ◌⊎◌, inl, inr, Bool, true, false, Bool-cases, Option, none, some, Option-cases,
  List,
}
use dawn.Calls.{◌>>=◌}
use dawn.Data.{Doubles, Value}
use dawn.Disk.{Stream}
use dawn.LinkHash.{OpCode, op_success, tuple_not_found, lk_ha_check_duplicate_key, lk_ha_get_tuple}
use dawn.LinkHash.Changes.{lk_ha_mark_delete}
use dawn.Page.TablePage.{get_tuple, is_missing}
use dawn.Page.{Page, Rid, Tuple, empty_tuple}
use dawn.Pool as Pool
use dawn.Pool.Frames.{if_false}
use dawn.Pool.{BufferPool}
use dawn.Schema.{Schema}

-- A read that fails leaves the tuple as it was.
get_tuple_failed :
    (p : Page) (t : Tuple) (rid : Rid) → (get_tuple p t rid).0 ≡ false → (get_tuple p t rid).1 ≡ t
unfolding get_tuple
get_tuple_failed p t rid failed = elim (Bool-cases (is_missing p rid.slot_num)) [
  | inl e ↦ rw e refl
  | inr e ↦
      let read : (get_tuple p t rid).0 ≡ true = ap (λ (q : Bool × Tuple). q.0) (if_false _ _ _ e) in
      absurd cc
]

module _ (doubles : Doubles) {S : Type 0} (io : Stream S) (hash : List ℕ → ℕ) (first_page_id : ℕ)
    (key_value : Value) (tb_schema : Schema) where
  abbrev pub lookup : BufferPool S → Option ((OpCode × Tuple) × BufferPool S)
  lookup = lk_ha_get_tuple doubles io hash first_page_id key_value empty_tuple tb_schema

  lk_ha_get_tuple-cases :
      (b : BufferPool S)
      → (lookup b ≡ none)
        ⊎ ((t : Tuple) × (b₁ : BufferPool S) × (lookup b ≡ some ((op_success, t), b₁)))
        ⊎ ((b₁ : BufferPool S) × (lookup b ≡ some ((tuple_not_found, empty_tuple), b₁)))
  unfolding lk_ha_get_tuple
  lk_ha_get_tuple-cases b =
      elim (Option-cases
        (lk_ha_check_duplicate_key doubles io hash first_page_id key_value tb_schema b)) [
          | inl e ↦ inl (rw (◌>>=◌, e) refl)
          | inr ((none, b₁), e) ↦ inr (inr (b₁, rw (◌>>=◌, e) refl))
          | inr ((some rid, b₁), e) ↦ elim (Option-cases (Pool.get_page io b₁ rid.page_id)) [
            | inl e₁ ↦ inl (rw (◌>>=◌, e, e₁) refl)
            | inr ((none, b₂), e₁) ↦ inl (rw (◌>>=◌, e, e₁) refl)
            | inr ((some f, b₂), e₁) ↦ elim (Option-cases (Pool.unpin_page b₂ rid.page_id false)) [
              | inl e₂ ↦ inl (rw (◌>>=◌, e, e₁, e₂) refl)
              | inr (b₃, e₂) ↦ elim (Bool-cases (get_tuple (b₂.pages f) empty_tuple rid).0) [
                | inl e₃ ↦ inr (
                    inl (
                      (get_tuple (b₂.pages f) empty_tuple rid).1,
                      b₃,
                      rw (◌>>=◌, e, e₁, e₂, e₃) refl,
                    ))
                | inr e₃ ↦ inr (inr (b₃, rw (◌>>=◌, e, e₁, e₂, e₃, get_tuple_failed _ _ _ e₃) refl))
              ]
            ]
          ]
        ]

  -- The deletion of a key up to its end never marks a tuple: either it does not return, or the key is
  -- there, the result is OP_SUCCESS, and the pool is as the lookup of the key leaves it.
  pub lk_ha_mark_delete_lem :
      (b : BufferPool S)
      → (lk_ha_mark_delete doubles io hash first_page_id key_value tb_schema b ≡ none)
        ⊎ ((t : Tuple) × (b₁ : BufferPool S) × (lookup b ≡ some ((op_success, t), b₁))
            × (lk_ha_mark_delete doubles io hash first_page_id key_value tb_schema b
                ≡ some (op_success, b₁)))
  unfolding lk_ha_mark_delete Pool.get_page
  lk_ha_mark_delete_lem b = elim (lk_ha_get_tuple-cases b) [
    | inl e ↦ inl (rw (◌>>=◌, e) refl)
    | inr (inl (t, b₁, e)) ↦ inr (t, b₁, e, rw (◌>>=◌, e) refl)
    | inr (inr (b₁, e)) ↦ inl (rw (◌>>=◌, e) refl)
  ]
