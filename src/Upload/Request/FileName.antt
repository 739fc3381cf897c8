-- ===== src/Upload/Request/FileName.antt =====
-- The name that receive_transfer_chunk (src/server/api.rs) gives to the file that comes in.
use share_dash.Common.{
  ◌≡◌, refl, inl, inr, true, false, List, [], ◌∷◌, Text, text_eq, arith, contains, All, Bool-cases,
}
use share_dash.Storage.Integrity.{is_empty}
use share_dash.Storage.SparseWriter.{
  Component, normal, prefix, root_dir, cur_dir, parent_dir, dot, dot_dot, components,
}
use share_dash.Storage.SparseWriter.Paths.{no_slash, IsName, NamesOnly, components-Names}
use share_dash.Upload.Headers.{trim}
use share_dash.Upload.Request.{
  default_name, last_name, forbidden, replace_forbidden, or_default_if_blank, file_name_of,
}

-- None of the nine characters that the handler replaces.
abbrev pub IsClean : Text → Type 0
IsClean = All (λ c. contains c forbidden ≡ false)

default-IsName : IsName default_name
unfolding text_eq
default-IsName = refl

default-IsClean : IsClean default_name
default-IsClean = (
  refl,
  (
    refl,
    (
      refl,
      (
        refl,
        (
          refl,
          (
            refl,
            (
              refl,
              (refl, (refl, (refl, (refl, (refl, (refl, (refl, (refl, (refl, (refl, tt)))))))))),
            ),
          ),
        ),
      ),
    ),
  ),
)

last_name-IsName : (cs : List Component) → All NamesOnly cs → IsName (last_name cs)
unfolding last_name
last_name-IsName [] h = default-IsName
last_name-IsName (normal s ∷ []) h = h.0
last_name-IsName (prefix ∷ []) h = default-IsName
last_name-IsName (root_dir ∷ []) h = default-IsName
last_name-IsName (cur_dir ∷ []) h = default-IsName
last_name-IsName (parent_dir ∷ []) h = default-IsName
last_name-IsName (c ∷ d ∷ cs) h = last_name-IsName (d ∷ cs) h.1

replace_forbidden-IsClean : (s : Text) → IsClean (replace_forbidden s)
unfolding replace_forbidden
replace_forbidden-IsClean [] = tt
replace_forbidden-IsClean (c ∷ cs) = elim (Bool-cases (contains c forbidden)) [
  | inl bad ↦ rw bad (refl, replace_forbidden-IsClean cs)
  | inr good ↦ rw good (good, replace_forbidden-IsClean cs)
]

IsClean-no_slash : (s : Text) → IsClean s → no_slash s ≡ true
IsClean-no_slash [] h = refl
IsClean-no_slash (c ∷ cs) h = ground (arith, h.0, IsClean-no_slash cs h.1)

-- A name that is neither of the dots is not made one.
replace_forbidden-dots :
    (s : Text)
    → (text_eq (replace_forbidden s) [] ≡ text_eq s [])
      × (text_eq (replace_forbidden s) dot ≡ text_eq s dot)
      × (text_eq (replace_forbidden s) dot_dot ≡ text_eq s dot_dot)
unfolding replace_forbidden text_eq
replace_forbidden-dots [] = (refl, refl, refl)
replace_forbidden-dots (c ∷ []) = (refl, ground arith, ground arith)
replace_forbidden-dots (c ∷ d ∷ []) = (refl, ground arith, ground arith)
replace_forbidden-dots (c ∷ d ∷ e ∷ cs) = (refl, ground arith, ground arith)

replace_forbidden-IsName : (s : Text) → IsName s → IsName (replace_forbidden s)
replace_forbidden-IsName s h =
    let same = replace_forbidden-dots s in
    let slashes = IsClean-no_slash (replace_forbidden s) (replace_forbidden-IsClean s) in
    ground (arith, h, same, slashes)

or_default_if_blank-Safe :
    (s : Text)
    → IsName s
    → IsClean s
    → IsName (or_default_if_blank s) × IsClean (or_default_if_blank s)
or_default_if_blank-Safe s name clean = elim (Bool-cases (is_empty (trim s))) [
  | inl blank ↦ rw blank (default-IsName, default-IsClean)
  | inr some_ ↦ rw some_ (name, clean)
]

-- Whatever name is sent, the file is written under a name that a directory can hold: it is not
-- empty, neither of the two dots, and has no slash, so that the file lies in the download
-- directory; and none of the nine characters that Windows forbids is left in it.
pub file_name_of_safe : (raw : Text) → IsName (file_name_of raw) × IsClean (file_name_of raw)
unfolding file_name_of
file_name_of_safe raw = elim (Bool-cases (is_empty raw)) [
  | inl nothing ↦ rw nothing (
      or_default_if_blank-Safe (replace_forbidden default_name)
        (replace_forbidden-IsName default_name default-IsName)
        (replace_forbidden-IsClean default_name))
  | inr something ↦
      let base = last_name (components raw) in
      rw something (
        or_default_if_blank-Safe (replace_forbidden base)
          (replace_forbidden-IsName base (last_name-IsName _ (components-Names raw)))
          (replace_forbidden-IsClean base))
]
