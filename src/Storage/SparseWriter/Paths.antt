-- ===== src/Storage/SparseWriter/Paths.antt =====
-- src/storage/sparse_writer.rs: no path that comes with a manifest leaves the base directory.
use share_dash.Common.{
  ℕ, ◌==◌, ◌≡◌, ◌≢◌, ◌↔◌, refl, ap, sym, subst, ◌∙◌, if◌then◌else◌, Bool, true, false, not, ◌&&◌,
  List, [], ◌∷◌, ◌++◌, Text, text_eq, ok, err, arith, All, Bool-cases, inl, inr,
}
use mathlib.Core.List.{append-nil, append_assoc}
use share_dash.Storage.SparseWriter.{
  Component, prefix, root_dir, cur_dir, parent_dir, normal, FilePath, illegal_component, push_head,
  split_slash, dot, dot_dot, segments, components, sanitize_loop, nonempty_path,
  sanitize_components, sanitize_relative_path,
}

abbrev pub no_slash : Text → Bool
no_slash [] = true
no_slash (c ∷ s) = not (c == b'/') && no_slash s

-- A name that a directory can hold: not empty, neither of the two dots, and without a slash.
abbrev pub is_name : Text → Bool
is_name s = no_slash s && (not (text_eq s []) && (not (text_eq s dot) && not (text_eq s dot_dot)))

abbrev pub IsName : Text → Type 0
IsName s = is_name s ≡ true

abbrev pub NamesOnly : Component → Type 0
NamesOnly (normal s) = IsName s
NamesOnly prefix = Unit {0}
NamesOnly root_dir = Unit {0}
NamesOnly cur_dir = Unit {0}
NamesOnly parent_dir = Unit {0}

plain :
    (c : ℕ) (s : Text)
    → no_slash (c ∷ s) ≡ true
    → text_eq (c ∷ s) dot ≡ false
    → text_eq (c ∷ s) dot_dot ≡ false
    → IsName (c ∷ s)
plain c s h e k = rw (h, e, k) (unfold text_eq in refl)

abbrev NoSlashes : List Text → Type 0
NoSlashes = All (λ t. no_slash t ≡ true)

push_head-NoSlashes :
    (c : ℕ) (ss : List Text) → (c == b'/') ≡ false → NoSlashes ss → NoSlashes (push_head c ss)
unfolding push_head
push_head-NoSlashes c [] e h = (ground arith, tt)
push_head-NoSlashes c (s ∷ ss) e h = (ground (arith, h.0), h.1)

split_slash-NoSlashes : (s : Text) → NoSlashes (split_slash s)
unfolding split_slash
split_slash-NoSlashes [] = (refl, tt)
split_slash-NoSlashes (c ∷ cs) = elim (Bool-cases (c == b'/')) [
  | inl e ↦ rw e (refl, split_slash-NoSlashes cs)
  | inr e ↦ rw e (push_head-NoSlashes c (split_slash cs) e (split_slash-NoSlashes cs))
]

segments-Names : (first : Bool) (ss : List Text) → NoSlashes ss → All NamesOnly (segments first ss)
unfolding segments
segments-Names first [] h = tt
segments-Names first ([] ∷ ss) h = segments-Names false ss h.1
segments-Names true ((c ∷ s) ∷ ss) h =
    let later = segments-Names false ss h.1 in
    elim (Bool-cases (text_eq (c ∷ s) dot)) [
      | inl e ↦ rw e (tt, later)
      | inr e ↦ elim (Bool-cases (text_eq (c ∷ s) dot_dot)) [
        | inl k ↦ rw (e, k) (tt, later)
        | inr k ↦ rw (e, k) (plain c s h.0 e k, later)
      ]
    ]
segments-Names false ((c ∷ s) ∷ ss) h =
    let later = segments-Names false ss h.1 in
    elim (Bool-cases (text_eq (c ∷ s) dot)) [
      | inl e ↦ rw e later
      | inr e ↦ elim (Bool-cases (text_eq (c ∷ s) dot_dot)) [
        | inl k ↦ rw (e, k) (tt, later)
        | inr k ↦ rw (e, k) (plain c s h.0 e k, later)
      ]
    ]

pub components-Names : (rel : Text) → All NamesOnly (components rel)
unfolding components
components-Names [] = tt
components-Names (c ∷ cs) = elim (Bool-cases (c == b'/')) [
  | inl e ↦ rw e (tt, segments-Names false (split_slash cs) (split_slash-NoSlashes cs))
  | inr e ↦ rw e (segments-Names true (split_slash (c ∷ cs)) (split_slash-NoSlashes (c ∷ cs)))
]

-- The names among the components, and whether there is anything but names and the current
-- directory.
abbrev pub names : List Component → FilePath
names [] = []
names (normal s ∷ cs) = s ∷ names cs
names (prefix ∷ cs) = names cs
names (root_dir ∷ cs) = names cs
names (cur_dir ∷ cs) = names cs
names (parent_dir ∷ cs) = names cs

abbrev pub has_illegal : List Component → Bool
has_illegal [] = false
has_illegal (normal s ∷ cs) = has_illegal cs
has_illegal (prefix ∷ cs) = true
has_illegal (root_dir ∷ cs) = true
has_illegal (cur_dir ∷ cs) = has_illegal cs
has_illegal (parent_dir ∷ cs) = true

names-IsName : (cs : List Component) → All NamesOnly cs → All IsName (names cs)
names-IsName [] h = tt
names-IsName (normal s ∷ cs) h = (h.0, names-IsName cs h.1)
names-IsName (prefix ∷ cs) h = names-IsName cs h.1
names-IsName (root_dir ∷ cs) h = names-IsName cs h.1
names-IsName (cur_dir ∷ cs) h = names-IsName cs h.1
names-IsName (parent_dir ∷ cs) h = names-IsName cs h.1

sanitize_loop_lem :
    (cs : List Component) (clean : FilePath)
    → sanitize_loop cs clean
      ≡ (if has_illegal cs then err illegal_component else ok (clean ++ names cs))
unfolding sanitize_loop
sanitize_loop_lem [] clean = ap ok (sym (append-nil clean))
sanitize_loop_lem (normal s ∷ cs) clean =
    sanitize_loop_lem cs (clean ++ (s ∷ []))
    ∙ ap (λ p. if has_illegal cs then err illegal_component else ok p)
        (append_assoc clean (s ∷ []) (names cs))
sanitize_loop_lem (cur_dir ∷ cs) clean = sanitize_loop_lem cs clean
sanitize_loop_lem (prefix ∷ cs) clean = refl
sanitize_loop_lem (root_dir ∷ cs) clean = refl
sanitize_loop_lem (parent_dir ∷ cs) clean = refl

-- On every path: a component that is a root, a prefix or a parent directory is an error, and so is
-- a path without a name; otherwise the result is the list of the path's names.
sanitize_relative_path_lem :
    (rel : Text)
    → sanitize_relative_path rel ≡ (
        if has_illegal (components rel)
        then err illegal_component
        else nonempty_path (names (components rel)))
unfolding sanitize_relative_path sanitize_components
sanitize_relative_path_lem rel = elim (Bool-cases (has_illegal (components rel))) [
  | inl e ↦ rw (sanitize_loop_lem, e) refl
  | inr e ↦ rw (sanitize_loop_lem, e) refl
]

accepted :
    (ns : FilePath)
    → All IsName ns
    → (p : FilePath) → nonempty_path ns ≡ ok p
    → All IsName p × (p ≢ [])
accepted [] h p e = cc
accepted (n ∷ ns) h p e =
    let same : n ∷ ns ≡ p = cc in (subst (All IsName) same h, λ k. cc (same, k))

not_illegal : (ns : FilePath) → nonempty_path ns ≢ err illegal_component
not_illegal [] e = cc
not_illegal (n ∷ ns) e = cc

-- A path that is accepted stays below the directory that it is joined to: it has a name, and every
-- one of its names is neither empty nor a dot or two dots, and holds no slash. A path is refused as
-- illegal exactly when it has a root, a prefix or a parent directory among its components.
pub sanitize_relative_path_safe :
    (rel : Text)
    → ((p : FilePath) → sanitize_relative_path rel ≡ ok p → All IsName p × (p ≢ []))
      × ((sanitize_relative_path rel ≡ err illegal_component)
          ↔ (has_illegal (components rel) ≡ true))
sanitize_relative_path_safe rel =
    rw sanitize_relative_path_lem (elim (Bool-cases (has_illegal (components rel))) [
      | inl e ↦ rw e (λ p k. cc, (λ k. refl, λ k. refl))
      | inr e ↦ rw e (
        accepted (names (components rel)) (names-IsName _ (components-Names rel)),
        (λ k. absurd (not_illegal _ k), λ k. cc),
      )
    ])
