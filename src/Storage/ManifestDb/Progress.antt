-- ===== src/Storage/ManifestDb/Progress.antt =====
-- src/storage/manifest_db.rs: what the database knows of a transfer's progress.
use share_dash.Common.{
  ℕ, suc, ◌≤◌, ◌==◌, ◌≡◌, refl, leb, Bool, false, not, ◌&&◌, ◌||◌, List, [], ◌∷◌, none, some,
  length, Text, text, text_eq, text_eq_refl, arith, contains, Bool-cases, inl, inr,
}
use share_dash.Storage.Tables.{
  TransferRow, ChunkRow, complete_rows, count_completed, set_completed, set_status, find_transfer,
  order_in, get_uncompleted_chunks, get_completed_chunks,
}

contains-order_in :
    (id a : ℕ) (xs : List ℕ) → contains a (order_in id xs) ≡ (id == a || contains a xs)
unfolding order_in
contains-order_in id a [] = refl
contains-order_in id a (x ∷ xs) = ground (arith, contains-order_in id a xs)

length-order_in : (id : ℕ) (xs : List ℕ) → length (order_in id xs) ≡ suc (length xs)
unfolding order_in
length-order_in id [] = refl
length-order_in id (x ∷ xs) = ground (arith, length-order_in id xs)

-- Ascending, from a lower bound on.
abbrev pub IsAscending : ℕ → List ℕ → Type 0
IsAscending low [] = Unit {0}
IsAscending low (x ∷ xs) = (low ≤ x) × IsAscending x xs

order_in-IsAscending :
    (id low : ℕ) (xs : List ℕ) → low ≤ id → IsAscending low xs → IsAscending low (order_in id xs)
unfolding order_in
order_in-IsAscending id low [] h k = (h, tt)
order_in-IsAscending id low (x ∷ xs) h k = elim (Bool-cases (leb id x)) [
  | inl le ↦ rw le (h, (ground arith, k.1))
  | inr gt ↦ rw gt (k.0, order_in-IsAscending id x xs (ground arith) k.1)
]

-- Some row of the transfer is for this chunk.
abbrev pub has_row : Text → ℕ → List ChunkRow → Bool
has_row tid id [] = false
has_row tid id (r ∷ rs) = (text_eq r.transfer_id tid && r.chunk.chunk_id == id) || has_row tid id rs

pub length-get_completed :
    (tid : Text) (rs : List ChunkRow)
    → length (get_completed_chunks tid rs) ≡ count_completed tid rs
unfolding get_completed_chunks count_completed
length-get_completed tid [] = refl
length-get_completed tid (r ∷ rs) = ground (
  arith,
  length-order_in r.chunk.chunk_id (get_completed_chunks tid rs),
  length-get_completed tid rs,
)

-- The lists of completed and of uncompleted chunks are in ascending order. A chunk that has a row
-- of the transfer is in at least one of them, and no other chunk is.
chunk_lists :
    (tid : Text) (rs : List ChunkRow)
    → IsAscending 0 (get_completed_chunks tid rs)
      × IsAscending 0 (get_uncompleted_chunks tid rs)
      × ((id : ℕ)
          → (contains id (get_completed_chunks tid rs)
              || contains id (get_uncompleted_chunks tid rs))
            ≡ has_row tid id rs)
unfolding get_completed_chunks get_uncompleted_chunks
chunk_lists tid [] = (tt, tt, λ id. refl)
chunk_lists tid (r ∷ rs) =
    let (up, up', split) = chunk_lists tid rs in
    let id = r.chunk.chunk_id in
    (
      ground (arith, order_in-IsAscending id 0 (get_completed_chunks tid rs) (omega arith) up, up),
      ground
          (arith, order_in-IsAscending id 0 (get_uncompleted_chunks tid rs) (omega arith) up', up'),
      λ j. ground (
        arith,
        split j,
        contains-order_in id j (get_completed_chunks tid rs),
        contains-order_in id j (get_uncompleted_chunks tid rs),
      ),
    )

pub completed-complete_rows :
    (tid : Text) (id : ℕ) (transport now : Text) (rs : List ChunkRow) (j : ℕ)
    → contains j (get_completed_chunks tid (complete_rows tid id transport now rs))
      ≡ (contains j (get_completed_chunks tid rs) || (id == j && has_row tid j rs))
unfolding get_completed_chunks complete_rows
completed-complete_rows tid id transport now [] j = ground arith
completed-complete_rows tid id transport now (r ∷ rs) j =
    let later = complete_rows tid id transport now rs in
    ground (
      arith,
      completed-complete_rows tid id transport now rs j,
      contains-order_in r.chunk.chunk_id j (get_completed_chunks tid rs),
      contains-order_in r.chunk.chunk_id j (get_completed_chunks tid later),
      text_eq_refl (text "COMPLETED"),
    )

pub uncompleted-complete_rows :
    (tid : Text) (id : ℕ) (transport now : Text) (rs : List ChunkRow) (j : ℕ)
    → contains j (get_uncompleted_chunks tid (complete_rows tid id transport now rs))
      ≡ (contains j (get_uncompleted_chunks tid rs) && not (id == j))
unfolding get_uncompleted_chunks complete_rows
uncompleted-complete_rows tid id transport now [] j = ground arith
uncompleted-complete_rows tid id transport now (r ∷ rs) j =
    let later = complete_rows tid id transport now rs in
    ground (
      arith,
      uncompleted-complete_rows tid id transport now rs j,
      contains-order_in r.chunk.chunk_id j (get_uncompleted_chunks tid rs),
      contains-order_in r.chunk.chunk_id j (get_uncompleted_chunks tid later),
      text_eq_refl (text "COMPLETED"),
    )

pub find-set_completed :
    (tid : Text) (n : ℕ) (now : Text) (rs : List TransferRow) (r : TransferRow)
    → find_transfer tid rs ≡ some r
    → find_transfer tid (set_completed tid n now rs)
      ≡ some (record r { completed_chunks = n; updated_at = now })
unfolding find_transfer set_completed
find-set_completed tid n now [] r e = cc
find-set_completed tid n now (x ∷ rs) r e = elim (Bool-cases (text_eq x.transfer_id tid)) [
  | inl hit ↦ ground arith
  | inr miss ↦ ground (arith, find-set_completed tid n now rs r)
]

pub find-set_status :
    (tid status now : Text) (rs : List TransferRow) (r : TransferRow)
    → find_transfer tid rs ≡ some r
    → find_transfer tid (set_status tid status now rs)
      ≡ some (record r { status = status; updated_at = now })
unfolding find_transfer set_status
find-set_status tid status now [] r e = cc
find-set_status tid status now (x ∷ rs) r e = elim (Bool-cases (text_eq x.transfer_id tid)) [
  | inl hit ↦ ground arith
  | inr miss ↦ ground (arith, find-set_status tid status now rs r)
]

pub find-set_none :
    (tid : Text) (n : ℕ) (now : Text) (rs : List TransferRow)
    → find_transfer tid rs ≡ none
    → find_transfer tid (set_completed tid n now rs) ≡ none
unfolding find_transfer set_completed
find-set_none tid n now [] e = refl
find-set_none tid n now (x ∷ rs) e = elim (Bool-cases (text_eq x.transfer_id tid)) [
  | inl hit ↦ ground arith
  | inr miss ↦ ground (arith, find-set_none tid n now rs)
]
