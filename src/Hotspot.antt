-- ===== src/Hotspot.antt =====
-- src/hotspot.rs: which of two computers opens a hotspot, on which band, and under which name and
-- password. The sentence that explains the choice is left out.
pub mod Agreement
use share_dash.Common.{
  text_le, ℕ, ◌+◌, ◌-◌, ◌%◌, ltb, leb, ◌==◌, if◌then◌else◌, Bool, true, false, not, ◌&&◌, ◌||◌,
  List, [], ◌∷◌, ◌++◌, Text, text, map, Floats,
}
use share_dash.Upload.Headers.{contains_text}

pub data Band : Type 0 where
  six_ghz five_ghz two_ghz : Band

unfoldable pub any_contains : List Text → Text → Bool
any_contains [] p = false
any_contains (t ∷ ts) p = contains_text t p || any_contains ts p

module _ (fl : Floats) where
  open fl use {F64, decimal, lt, eq}

  -- `WifiCapsInfo`.
  pub record WifiCapsInfo : Type 0 where
    pub wifi_standard : Text
    pub max_frequency_ghz : F64
    pub max_channel_width_mhz : ℕ
    pub max_phy_rate_mbps : ℕ
    pub supported_bands : List Text

  -- Whether a band is named, or the frequency reaches it.
  unfoldable pub has_band : WifiCapsInfo → Text → F64 → Bool
  has_band caps name ghz =
      any_contains caps.supported_bands name
      || (lt ghz caps.max_frequency_ghz || eq ghz caps.max_frequency_ghz)

  unfoldable pub select_band : WifiCapsInfo → WifiCapsInfo → Band
  select_band local remote =
      if has_band local (text "6 GHz") (decimal 6 0) && has_band remote (text "6 GHz") (decimal 6 0)
      then six_ghz
      else if has_band local (text "5 GHz") (decimal 5 0)
          && has_band remote (text "5 GHz") (decimal 5 0)
      then five_ghz
      else two_ghz

  -- Whether this device is the host, and the band.
  unfoldable pub select_optimal_pc_to_pc_host :
      WifiCapsInfo → WifiCapsInfo → Text → Text → Bool × Band
  select_optimal_pc_to_pc_host local remote local_name remote_name = (
    if not (local.max_phy_rate_mbps == remote.max_phy_rate_mbps)
        then ltb remote.max_phy_rate_mbps local.max_phy_rate_mbps
        else if not (local.max_channel_width_mhz == remote.max_channel_width_mhz)
        then ltb remote.max_channel_width_mhz local.max_channel_width_mhz
        else text_le local_name remote_name,
    select_band local remote,
  )

-- From a random byte.
unfoldable pub suffix_char : ℕ → ℕ
suffix_char byte = let idx = byte % 36 in if ltb idx 10 then 48 + idx else 65 + (idx - 10)

unfoldable pub password_char : ℕ → ℕ
password_char byte =
    let idx = byte % 62 in
    if ltb idx 10 then 48 + idx else if ltb idx 36 then 65 + (idx - 10) else 97 + (idx - 36)

-- The name and the password, from four and eight random bytes.
unfoldable pub generate_hotspot_credentials : List ℕ → List ℕ → Text × Text
generate_hotspot_credentials four eight =
    (text "ShareDash-5G-" ++ map suffix_char four, map password_char eight)
