-- ===== src/Calls.antt =====
-- Calls of the buffer pool in a row, as src/index, src/table and src/meta make them, and reads and
-- writes of the pages in its frames. `none` is a call that does not return, or undefined behaviour such
-- as a read through the null pointer. The latches of the pages are left out, as a call is atomic.
pub mod Holds
pub mod Sample
use dawn.Base.{ℕ, suc, Bool, Option, none, some}
use dawn.Disk.{Stream}
use dawn.Page.{Page}
use dawn.Pool as Pool
use dawn.Pool.{BufferPool, put}

abbrev pub Action : Type 0 → Type 0 → Type 0
Action S A = BufferPool S → Option (A × BufferPool S)

module _ {S A : Type 0} where
  abbrev pub pure : A → Action S A
  pure a b = some (a, b)

  abbrev pub stuck : Action S A
  stuck b = none

  abbrev pub defined : Option A → Action S A
  defined none b = none
  defined (some a) b = some (a, b)

  -- a read of the page in a frame
  abbrev pub gets : ℕ → (Page → A) → Action S A
  gets f g b = some (g (b.pages f), b)

infixl 5 ◌>>=◌ ◌>>◌
abbrev pub ◌>>=◌ : {S A B : Type 0} → Action S A → (A → Action S B) → Action S B
◌>>=◌ m k b = elim (m b) [ none ↦ none | some (a, b₁) ↦ k a b₁ ]

abbrev pub ◌>>◌ : {S B : Type 0} → Action S (Unit {0}) → Action S B → Action S B
m >> k = m >>= λ _. k

module _ {S : Type 0} where
  -- a write to the page in a frame
  abbrev pub modify : ℕ → (Page → Page) → Action S (Unit {0})
  modify f g b = some (tt, record b { pages = put b.pages f (g (b.pages f)) })

  abbrev pub unpin_page : ℕ → Bool → Action S (Unit {0})
  unpin_page id dirty b = elim (Pool.unpin_page b id dirty) [
    | none ↦ none
    | some b₁ ↦ some (tt, b₁)
  ]

  -- the loops over the pages of a list run at most once for each page id, and once more
  abbrev pub page_fuel : Action S ℕ
  page_fuel b = some (suc b.disk_manager.max_ava_pgid, b)

  module _ (io : Stream S) where
    -- `bpm->get_page` where the code tests for the null pointer, and where it does not
    abbrev pub try_page : ℕ → Action S (Option ℕ)
    try_page id b = Pool.get_page io b id

    abbrev pub get_page : ℕ → Action S ℕ
    get_page id b = elim (Pool.get_page io b id) [
      | none ↦ none
      | some (none, b₁) ↦ none
      | some (some f, b₁) ↦ some (f, b₁)
    ]

    -- `bpm->new_page`, which never returns the null pointer
    abbrev pub new_page : Action S ℕ
    new_page b = Pool.alloc_page io b 1

    abbrev pub delete_page : ℕ → Action S Bool
    delete_page id b = Pool.delete_page io b id

    abbrev pub flush_page : ℕ → Action S Bool
    flush_page id b = Pool.flush_page io b id
