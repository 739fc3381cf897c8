-- ===== src/Storage/SparseWriter/Files.antt =====
-- src/storage/sparse_writer.rs: a file as its bytes, under writes at offsets.
use share_dash.Common.{
  zero, suc, replicate, drop-drop, drop-append, take-append, length-replicate, take-append_drop, ℕ,
  ◌+◌, ◌-◌, ◌≤◌, ◌≡◌, refl, ap, sym, ◌∙◌, ltb, leb, if◌then◌else◌, Bool, true, false, ◌&&◌, List,
  [], ◌∷◌, ◌++◌, some, length, take, drop, get_elem?, arith, Bool-cases, inl, inr, get_elem?-append,
  get_elem?-take, get_elem?-drop, list_ext, length-append, length-take, length-drop, text_eq→eq,
  text_eq_refl,
}
use share_dash.Storage.SparseWriter.{FilePath, Disk, path_eq, read, save, write_at}

-- The position is one of those that `len` bytes at `offset` take.
abbrev pub inside : ℕ → ℕ → ℕ → Bool
inside offset len i = leb offset i && ltb i (offset + len)

-- A write that ends inside the file needs no filling.
write_at_inside :
    (f : List ℕ) (offset : ℕ) (bs : List ℕ)
    → offset + length bs ≤ length f
    → write_at f offset bs ≡ take offset f ++ (bs ++ drop (offset + length bs) f)
unfolding write_at
write_at_inside f offset [] h =
    let same : offset + 0 ≡ offset = omega arith in rw (same, take-append_drop offset f)
write_at_inside f offset (b ∷ bs) h = let no_gap : offset - length f ≡ 0 = omega arith in rw no_gap

pub length-write_at :
    (f : List ℕ) (offset : ℕ) (bs : List ℕ)
    → offset + length bs ≤ length f
    → length (write_at f offset bs) ≡ length f
length-write_at f offset bs h = rw (write_at_inside f offset bs h) (
    omega (
      arith,
      length-append (take offset f) (bs ++ drop (offset + length bs) f),
      length-append bs (drop (offset + length bs) f),
      length-take offset f (omega arith),
      length-drop (offset + length bs) f,
    ))

-- Inside a file a write puts its bytes at their positions and leaves all others alone.
pub get_elem?-write_at :
    (f : List ℕ) (offset : ℕ) (bs : List ℕ) (i : ℕ)
    → offset + length bs ≤ length f
    → get_elem? (write_at f offset bs) i
      ≡ (if inside offset (length bs) i then get_elem? bs (i - offset) else get_elem? f i)
get_elem?-write_at f offset bs i h =
    let last = offset + length bs in
    rw (write_at_inside f offset bs h) (
      ground (
        arith,
        get_elem?-append (take offset f) (bs ++ drop last f) i,
        length-take offset f (omega arith),
        get_elem?-take offset f i,
        get_elem?-append bs (drop last f) (i - offset),
        get_elem?-drop last f (i - offset - length bs),
      ))

-- A write over a write of the same length replaces it.
pub write_at_overwrites :
    (f : List ℕ) (offset : ℕ) (first second : List ℕ)
    → length first ≡ length second
    → offset + length first ≤ length f
    → write_at (write_at f offset first) offset second ≡ write_at f offset second
write_at_overwrites f offset first second len fits = list_ext _ _ λ i. ground (
  arith,
  get_elem?-write_at (write_at f offset first) offset second i,
  get_elem?-write_at f offset first i,
  get_elem?-write_at f offset second i,
  length-write_at f offset first,
)

pub path_eq→eq : (p q : FilePath) → path_eq p q ≡ true → p ≡ q
unfolding path_eq
path_eq→eq [] [] h = refl
path_eq→eq [] (n ∷ ns) h = cc
path_eq→eq (m ∷ ms) [] h = cc
path_eq→eq (m ∷ ms) (n ∷ ns) h = ground (arith, text_eq→eq m n, path_eq→eq ms ns)

pub path_eq_refl : (p : FilePath) → path_eq p p ≡ true
unfolding path_eq
path_eq_refl [] = refl
path_eq_refl (m ∷ ms) = ground (arith, text_eq_refl m, path_eq_refl ms)

path_eq_left : (p q r : FilePath) → path_eq p q ≡ true → path_eq p r ≡ path_eq q r
path_eq_left p q r h = ap (λ s. path_eq s r) (path_eq→eq p q h)

path_apart : (p q r : FilePath) → path_eq r p ≡ false → path_eq p q ≡ true → path_eq r q ≡ false
path_apart p q r h k = ap (path_eq r) (sym (path_eq→eq p q k)) ∙ h

pub read-save :
    (p q : FilePath) (f : List ℕ) (d : Disk)
    → read q (save p f d) ≡ (if path_eq p q then some f else read q d)
unfolding read save
read-save p q f [] = refl
read-save p q f ((r, g) ∷ d) = elim (Bool-cases (path_eq r p)) [
  | inl hit ↦ ground (arith, hit, path_eq_left r p q hit)
  | inr miss ↦ ground (arith, miss, read-save p q f d, path_apart p q r miss)
]

pub read_saved : (p : FilePath) (f : List ℕ) (d : Disk) → read p (save p f d) ≡ some f
read_saved p f d = rw (read-save, path_eq_refl p) refl

take_and_gap : (n : ℕ) (f : List ℕ) → length (take n f) + (n - length f) ≡ n
take_and_gap zero f = omega arith
take_and_gap (suc n) [] = omega arith
take_and_gap (suc n) (b ∷ f) = omega (arith, take_and_gap n f)

-- What a write has put at its offset, even with a gap in front of it.
pub write_at-back :
    (f : List ℕ) (offset : ℕ) (bs : List ℕ)
    → take (length bs) (drop offset (write_at f offset bs)) ≡ bs
unfolding write_at
write_at-back f offset [] = refl
write_at-back f offset (b ∷ bs) =
    let kept = take offset f in
    let gap = offset - length f in
    let zeros = replicate gap 0 in
    let last = (b ∷ bs) ++ drop (offset + length (b ∷ bs)) f in
    let at : drop offset (kept ++ (zeros ++ last)) ≡ last =
      ap (λ n. drop n (kept ++ (zeros ++ last))) (sym (take_and_gap offset f))
      ∙ sym (drop-drop gap (length kept) (kept ++ (zeros ++ last)))
      ∙ ap (drop gap) (drop-append kept (zeros ++ last))
      ∙ ap (λ n. drop n (zeros ++ last)) (sym (length-replicate gap 0))
      ∙ drop-append zeros last in
    ap (take (length (b ∷ bs))) at ∙ take-append (b ∷ bs) _
