-- ===== src/Ivr/Collection.antt =====
-- A collection of the document database, as platform/app/repositories/ivr_repository.py and
-- platform/app/services/ivr_service.py use it: each operation acts on single documents, at once, and
-- `_id` is unique. The database is not part of the repository: this is its interface.
pub mod Tables
use seeds.Base.{ℕ, String, ◌==◌, ◌≡◌, Bool, true, false, Option, none, some, if◌then◌else◌}

-- The answers to `update_one` with `upsert=True`; the last is `DuplicateKeyError`.
pub data Upserted : Type 0 where
  matched inserted duplicate_key : Upserted

module _ {D : Type 0} where
  -- a document that is there and passes the filter
  abbrev pub matches : (D → Bool) → Option D → Bool
  matches p none = false
  matches p (some d) = p d

  abbrev pub changed : (D → Bool) → (D → D) → Option D → Option D
  changed p f none = none
  changed p f (some d) = some (if p d then f d else d)

  abbrev pub dropped : (D → Bool) → Option D → Option D
  dropped p none = none
  dropped p (some d) = if p d then none else some d

  abbrev pub found : (D → Bool) → Option D → Option D
  found p none = none
  found p (some d) = if p d then some d else none

  abbrev pub upserted_as : (D → Bool) → Option D → Upserted
  upserted_as p none = inserted
  upserted_as p (some d) = if p d then matched else duplicate_key

  abbrev pub upserted : (D → Bool) → (D → D) → D → Option D → Option D
  upserted p f new none = some new
  upserted p f new (some d) = some (if p d then f d else d)

pub record Collection (C D : Type 0) : Type 0 where
  -- `find_one({"_id": k})`, and with another filter
  pub find_one : String → C → Option D
  pub find_where : (D → Bool) → C → Option D
  -- `count_documents`
  pub count : (D → Bool) → C → ℕ
  -- `update_one` of the document under a key that passes a filter: `matched_count > 0`
  pub update_one : String → (D → Bool) → (D → D) → C → Bool × C
  -- the same with `upsert=True`, and the document that is made where there is none
  pub upsert_one : String → (D → Bool) → (D → D) → D → C → Upserted × C
  -- the document as it was
  pub find_one_and_update : String → (D → Bool) → (D → D) → C → Option D × C
  -- with `upsert=True`
  pub replace_one : String → D → C → C
  pub delete_one : String → C → C
  pub delete_many : (D → Bool) → C → C
  pub find_where-some : (p : D → Bool) (d : D) (c : C) → find_where p c ≡ some d → p d ≡ true
  pub find_where-none :
      (p : D → Bool) (k : String) (d : D) (c : C)
      → find_where p c ≡ none
      → find_one k c ≡ some d
      → p d ≡ false
  pub count-zero :
      (p : D → Bool) (k : String) (d : D) (c : C)
      → count p c ≡ 0
      → find_one k c ≡ some d
      → p d ≡ false
  pub update_one-matched :
      (k : String) (p : D → Bool) (f : D → D) (c : C)
      → (update_one k p f c).0 ≡ matches p (find_one k c)
  pub find-update_one :
      (k j : String) (p : D → Bool) (f : D → D) (c : C)
      → find_one j (update_one k p f c).1
        ≡ (if k == j then changed p f (find_one j c) else find_one j c)
  pub upsert_one-upserted :
      (k : String) (p : D → Bool) (f : D → D) (d : D) (c : C)
      → (upsert_one k p f d c).0 ≡ upserted_as p (find_one k c)
  pub find-upsert_one :
      (k j : String) (p : D → Bool) (f : D → D) (d : D) (c : C)
      → find_one j (upsert_one k p f d c).1
        ≡ (if k == j then upserted p f d (find_one j c) else find_one j c)
  pub find_one_and_update-found :
      (k : String) (p : D → Bool) (f : D → D) (c : C)
      → (find_one_and_update k p f c).0 ≡ found p (find_one k c)
  pub find-find_one_and_update :
      (k j : String) (p : D → Bool) (f : D → D) (c : C)
      → find_one j (find_one_and_update k p f c).1
        ≡ (if k == j then changed p f (find_one j c) else find_one j c)
  pub find-replace_one :
      (k j : String) (d : D) (c : C)
      → find_one j (replace_one k d c) ≡ (if k == j then some d else find_one j c)
  pub find-delete_one :
      (k j : String) (c : C) → find_one j (delete_one k c) ≡ (if k == j then none else find_one j c)
  pub find-delete_many :
      (p : D → Bool) (j : String) (c : C) → find_one j (delete_many p c) ≡ dropped p (find_one j c)
