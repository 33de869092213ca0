-- ===== src/LinkHash/Chain.antt =====
-- The search of a whole list of table pages whose pages are in the pool.
use dawn.Base.{
  ℕ, zero, suc, ◌≤◌, ◌<◌, ◌≡◌, ◌≢◌, refl, sym, ap, ◌∙◌, true, false, Option, Option-cases, none,
  some, inl, inr, List, [], ◌∷◌, length, ◌==◌, arith,
}
use dawn.Calls.Holds.{Alike, Alike-trans, get_page-Alike, unpin_page-Alike}
use dawn.Calls.{◌>>=◌}
use dawn.Data.{Doubles, Value}
use dawn.Disk.{Stream}
use dawn.LinkHash.Search.{search, find_in_page-search}
use dawn.LinkHash.{find_in_list, find_in_page}
use dawn.Memory.{minus_one, read32}
use dawn.Page.TablePage.{get_next_page_id, get_the_first_tuple, get_tuple, find_used, slots}
use dawn.Page.{Page, new_page, Rid, Tuple, empty_tuple}
use dawn.Pool.{BufferPool, find}
use dawn.Schema.{Schema}

-- The pages of a list from a page id on, as they are in frames of the pool; each has a tuple in a slot, and the
-- first one is not marked as deleted, so that it can be read.
abbrev pub Chain : {S : Type 0} → BufferPool S → ℕ → List Page → Type 0
Chain b id [] = id ≡ minus_one
Chain b id (p ∷ ps) =
    (f : ℕ) × (cmp : Tuple) × (find id b.mapping ≡ some f)
    × (id < 2147483648)
    × ((b.pages f).data_ ≡ p.data_)
    × ((b.pages f).page_id ≡ p.page_id)
    × (p.page_id ≢ minus_one)
    × (get_the_first_tuple p empty_tuple ≡ some (true, cmp))
    × Chain b (get_next_page_id p) ps

Chain-Alike :
    {S : Type 0} (b b₁ : BufferPool S) (ps : List Page) (id : ℕ)
    → Alike b b₁
    → Chain b id ps
    → Chain b₁ id ps
Chain-Alike b b₁ [] id alike chain = chain
Chain-Alike b b₁ (p ∷ ps) id (a, places, bytes, ids)
      (f, cmp, mapped, small, data_same, id_same, own, first, rest) =
    (
      f,
      cmp,
      ap (find id) places ∙ mapped,
      small,
      bytes f ∙ data_same,
      ids f ∙ id_same,
      own,
      first,
      Chain-Alike b b₁ ps (get_next_page_id p) (a, places, bytes, ids) rest,
    )

-- the parts of a page that the search reads
abbrev core : Page → Page
core p = record new_page { page_id = p.page_id; data_ = p.data_ }

core_same : (p q : Page) → p.data_ ≡ q.data_ → p.page_id ≡ q.page_id → core p ≡ core q
core_same p q e₁ e₂ = rw (e₁, e₂) refl

first-core : (p : Page) (t : Tuple) → get_the_first_tuple p t ≡ get_the_first_tuple (core p) t
unfolding get_the_first_tuple find_used
first-core p t = refl

search-core :
    (doubles : Doubles) (p : Page) (tb_schema : Schema) (key_value : Value) (t : Tuple) (left s : ℕ)
    → search doubles p tb_schema key_value t left s
      ≡ search doubles (core p) tb_schema key_value t left s
unfolding search get_tuple
search-core doubles p tb_schema key_value t left s = refl

-- The reference: the search over the pages of the list in turn.
unfoldable pub search_list : Doubles → Schema → Value → List Page → Option (Option Rid)
search_list doubles tb_schema key_value [] = some none
search_list doubles tb_schema key_value (p ∷ ps) =
    let rest = search_list doubles tb_schema key_value ps in
    elim (search doubles p tb_schema key_value empty_tuple (slots p) 0) [
      | none ↦ none
      | some none ↦ rest
      | some (some rid) ↦ some (some rid)
    ]

module _ (doubles : Doubles) {S : Type 0} (io : Stream S) (tb_schema : Schema)
    (key_value : Value) where
  abbrev returns : Option Rid → BufferPool S → Option (Option Rid × BufferPool S)
  returns r b = some (r, b)

  paired :
      (b : BufferPool S) (r found : Option Rid)
      → some r ≡ some found
      → returns r b ≡ returns found b
  paired b r found e = cc

  -- the loop over the tuples of a page that is got from the pool
  page_found :
      (p q : Page) (cmp : Tuple)
      → q.data_ ≡ p.data_
      → q.page_id ≡ p.page_id
      → p.page_id ≢ minus_one
      → get_the_first_tuple p empty_tuple ≡ some (true, cmp)
      → (get_the_first_tuple q empty_tuple ≡ some (true, cmp))
        × (find_in_page doubles (slots q) q tb_schema key_value cmp cmp.rid
            ≡ search doubles p tb_schema key_value empty_tuple (slots p) 0)
  page_found p q cmp e₁ e₂ own first =
      let same = core_same q p e₁ e₂ in
      let first_q : get_the_first_tuple q empty_tuple ≡ some (true, cmp) =
        first-core q empty_tuple
        ∙ ap (λ c. get_the_first_tuple c empty_tuple) same
        ∙ sym (first-core p empty_tuple)
        ∙ first in
      let own_q : q.page_id ≢ minus_one = λ e. own (sym e₂ ∙ e) in
      (
        first_q,
        find_in_page-search doubles q tb_schema key_value own_q empty_tuple cmp true first_q
            ∙ search-core doubles q tb_schema key_value empty_tuple (slots q) 0
            ∙ ap (λ c. search doubles c tb_schema key_value empty_tuple (slots c) 0) same
            ∙ sym (search-core doubles p tb_schema key_value empty_tuple (slots p) 0),
      )

  -- The lookup in a list whose pages are in the pool, on each of which the first tuple is there and can be
  -- read (`get_the_first_tuple` returns true, so that tuple is not marked as deleted), finds what the search
  -- over the pages in turn finds, if that does not come to a tuple whose key is undefined and the pool's
  -- latch is free. One round for each page and one more are enough, and the places and the bytes of the
  -- pages stay as they are.
  pub find_in_list-search_list :
      (ps : List Page) (id fuel : ℕ) (b : BufferPool S) (found : Option Rid)
      → length ps ≤ fuel
      → b.latch_kept ≡ false
      → Chain b id ps
      → search_list doubles tb_schema key_value ps ≡ some found
      → (b₁ : BufferPool S) × (find_in_list doubles io tb_schema key_value (suc fuel) id b
          ≡ some (found, b₁))
        × Alike b b₁
  unfolding find_in_list search_list
  find_in_list-search_list [] id fuel b found enough unlocked end e =
      (b, rw (find_in_list, end) (paired b none found e), (unlocked, refl, λ i. refl, λ i. refl))
  find_in_list-search_list (p ∷ ps) id zero b found enough unlocked chain e =
      absurd (omega (arith, enough))
  find_in_list-search_list (p ∷ ps) id (suc fuel) b found enough unlocked
        (f, cmp, mapped, small, data_same, id_same, own, first, rest) e =
      let (b₁, got, alike) = get_page-Alike io b id f small unlocked mapped in
      let q = b₁.pages f in
      let (first_q, found_q) =
        page_found p q cmp (alike.2 f ∙ data_same) (alike.3 f ∙ id_same) own first in
      let valid : (id == minus_one) ≡ false = ground arith in
      elim (Option-cases (search doubles p tb_schema key_value empty_tuple (slots p) 0)) [
        | inl s ↦ let e₁ = rw (search_list, s) at e in absurd cc
        | inr (some rid, s) ↦
            let (b₂, gone, alike₂) = unpin_page-Alike b₁ id false alike.0 in
            (
              b₂,
              rw (find_in_list, valid, ◌>>=◌, got, first_q, found_q, s, gone)
                  (paired b₂ (some rid) found (rw (search_list, s) at e)),
              Alike-trans b b₁ b₂ alike alike₂,
            )
        | inr (none, s) ↦
            let (b₂, gone, alike₂) = unpin_page-Alike b₁ q.page_id false alike.0 in
            let next : get_next_page_id q ≡ get_next_page_id p =
              ap (λ m. read32 m 68) (alike.2 f ∙ data_same) in
            let both = Alike-trans b b₁ b₂ alike alike₂ in
            let chain₂ = Chain-Alike b b₂ ps (get_next_page_id p) both rest in
            let (b₃, ran, alike₃) =
              find_in_list-search_list ps (get_next_page_id p) fuel b₂ found (omega (arith, enough))
                both.0 chain₂ (rw (search_list, s) at e) in
            (
              b₃,
              rw (find_in_list, valid, ◌>>=◌, got, first_q, found_q, s, gone)
                  (ap (λ k. find_in_list doubles io tb_schema key_value (suc fuel) k b₂) next
                    ∙ ran),
              Alike-trans b b₂ b₃ both alike₃,
            )
      ]
