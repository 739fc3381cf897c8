-- ===== src/Discovery/Versions.antt =====
-- src/discovery/mdns.rs: is_version_compatible.
use share_dash.Common.{
  ℕ, ◌^◌, leb, ◌==◌, if◌then◌else◌, Bool, true, ◌&&◌, List, [], ◌∷◌, Option, none, some, Text, text,
}
use share_dash.Storage.Integrity.{is_empty}
use share_dash.Upload.Headers.{parse}

-- `split('.')`.
abbrev start_with : ℕ → List Text → List Text
start_with c [] = (c ∷ []) ∷ []
start_with c (part ∷ parts) = (c ∷ part) ∷ parts

unfoldable pub split_dots : Text → List Text
split_dots [] = [] ∷ []
split_dots (c ∷ cs) = let rest = split_dots cs in if c == b'.' then [] ∷ rest else start_with c rest

abbrev keep_number : Option ℕ → List ℕ → List ℕ
keep_number none ns = ns
keep_number (some n) ns = n ∷ ns

-- The parts that are numbers; the others are passed over.
unfoldable pub numbers : List Text → List ℕ
numbers [] = []
numbers (part ∷ parts) = keep_number (parse (2 ^ 32) part) (numbers parts)

abbrev pub current_app_version : Text
current_app_version = text "0.1.0"

-- The parts of MIN_SUPPORTED_APP_VERSION, 0.1.0.
abbrev pub compatible_parts : List ℕ → Bool
compatible_parts [] = true
compatible_parts (major ∷ []) = true
compatible_parts (major ∷ minor ∷ rest) = major == 0 && leb 1 minor

unfoldable pub is_version_compatible : Text → Bool
is_version_compatible version =
    if is_empty version then true else compatible_parts (numbers (split_dots version))
