-- ===== src/Upload/Sender/Accounting.antt =====
-- The progress that the workers of src/cli.rs and src/gui/engine.rs report, over all channels.
use share_dash.Common.{
  ℕ, zero, suc, ◌+◌, ◌%◌, ◌^◌, ◌≤◌, ◌<◌, ◌==◌, ◌≡◌, refl, ap, if◌then◌else◌, true, false, List, [],
  ◌∷◌, some, arith, contains, length, get_elem?, has_key, adjust, subst,
}
use share_dash.Upload.Dispatcher.{TransferChunkInfo}
use share_dash.Upload.Dispatcher.Layout.{Tiles}
use share_dash.Upload.Dispatcher.Histories.{Tiles-numbered}
use share_dash.Upload.Sender.{Progress}

-- The weight of the chunks that are completed, and of all chunks.
unfoldable pub weigh : (TransferChunkInfo → ℕ) → List ℕ → List TransferChunkInfo → ℕ
weigh w completed [] = 0
weigh w completed (c ∷ cs) =
    (if contains c.chunk_id completed then w c else 0) + weigh w completed cs

unfoldable pub weigh_all : (TransferChunkInfo → ℕ) → List TransferChunkInfo → ℕ
weigh_all w [] = 0
weigh_all w (c ∷ cs) = w c + weigh_all w cs

abbrev pub bytes_of : TransferChunkInfo → ℕ
bytes_of c = c.length

abbrev pub one_each : TransferChunkInfo → ℕ
one_each c = 1

-- The sum over all channels.
unfoldable pub over_channels : (Progress → ℕ) → List (ℕ × Progress) → ℕ
over_channels g [] = 0
over_channels g ((channel, p) ∷ rest) = g p + over_channels g rest

pub weigh_le :
    (w : TransferChunkInfo → ℕ) (completed : List ℕ) (cs : List TransferChunkInfo)
    → weigh w completed cs ≤ weigh_all w cs
unfolding weigh weigh_all
weigh_le w completed [] = omega arith
weigh_le w completed (c ∷ cs) = ground (arith, weigh_le w completed cs)

pub weigh_all-one_each : (cs : List TransferChunkInfo) → weigh_all one_each cs ≡ length cs
unfolding weigh_all
weigh_all-one_each [] = refl
weigh_all-one_each (c ∷ cs) = omega (arith, weigh_all-one_each cs)

pub over_channels-adjust :
    (g : Progress → ℕ) (f : Progress → Progress) (x channel : ℕ) (m : List (ℕ × Progress))
    → ((p : Progress) → g (f p) ≡ (g p + x) % 2 ^ 64)
    → has_key channel m ≡ true
    → over_channels g m + x < 2 ^ 64
    → over_channels g (adjust channel f m) ≡ over_channels g m + x
unfolding over_channels adjust
over_channels-adjust g f x channel [] e h k = cc
over_channels-adjust g f x channel ((other, p) ∷ rest) e h k =
    ground (arith, e p, over_channels-adjust g f x channel rest e, h, k)

module _ (low high total : ℕ) (w : TransferChunkInfo → ℕ) where
  weigh-cons_before :
      (offset n : ℕ) (cs : List TransferChunkInfo) (id : ℕ) (completed : List ℕ)
      → Tiles low high total offset n cs
      → id < n
      → weigh w (id ∷ completed) cs ≡ weigh w completed cs
  unfolding weigh
  weigh-cons_before offset n [] id completed t h = refl
  weigh-cons_before offset n (c ∷ cs) id completed t h =
      let rest = weigh-cons_before (offset + c.length) (suc n) cs id completed t.1 (omega arith) in
      ground (arith, rest, t.0.chunk_id_eq, h)

  pub weigh-cons :
      (offset n : ℕ) (cs : List TransferChunkInfo) (k : ℕ) (c : TransferChunkInfo)
      (completed : List ℕ)
      → Tiles low high total offset n cs
      → get_elem? cs k ≡ some c
      → contains c.chunk_id completed ≡ false
      → weigh w (c.chunk_id ∷ completed) cs ≡ weigh w completed cs + w c
  unfolding weigh
  weigh-cons offset n [] k c completed t at h = cc
  weigh-cons offset n (d ∷ ds) zero c completed t at h =
      let same : d ≡ c = cc at in
      let later =
        weigh-cons_before (offset + d.length) (suc n) ds d.chunk_id completed t.1
          (omega (arith, t.0.chunk_id_eq)) in
      subst (λ x. weigh w (x.chunk_id ∷ completed) (d ∷ ds) ≡ weigh w completed (d ∷ ds) + w x) same
        (ground (arith, later, ap (λ x. contains x.chunk_id completed) same, h))
  weigh-cons offset n (d ∷ ds) (suc k) c completed t at h =
      let rest = weigh-cons (offset + d.length) (suc n) ds k c completed t.1 at h in
      let id = Tiles-numbered low high total (offset + d.length) (suc n) ds k c t.1 at in
      let other : (c.chunk_id == d.chunk_id) ≡ false = ground (arith, id, t.0.chunk_id_eq) in
      ground (arith, rest, other)

  pub Tiles-bytes :
      (offset n : ℕ) (cs : List TransferChunkInfo)
      → Tiles low high total offset n cs
      → offset ≤ total
      → offset + weigh_all bytes_of cs ≤ total
  unfolding weigh_all
  Tiles-bytes offset n [] t h = omega (arith, h)
  Tiles-bytes offset n (c ∷ cs) t h =
      omega (arith, Tiles-bytes (offset + c.length) (suc n) cs t.1 t.0.within)
