-- ===== src/Ieee802154/Decoder/Search.antt =====
-- How long `search_sync` looks for the synchronisation word.
use satnogs_gr_oot.Base.{ℕ, ◌+◌, ◌*◌, ◌≡◌, ◌⊎◌}
use satnogs_gr_oot.Base.{◌==◌, if◌then◌else◌}
use satnogs_gr_oot.Whitening.{Lfsr}
use satnogs_gr_oot.Ieee802154.Decoder.{searching, searching_sync, decoding_generic_frame_len}
use satnogs_gr_oot.Ieee802154.Decoder.{decoding_payload, Config, Decoder}

-- The bits after which the word is no longer waited for.
abbrev pub limit : Config → ℕ
limit c = c.preamble_len * 2 + c.sync_len + c.sync_thrsh

module _ (lfsr : Lfsr) where
  -- The word was found, or the decoder was reset; either way no bits of the next are counted yet.
  abbrev pub Left : Config → Decoder lfsr → Type 0
  Left c t =
      (t.cnt ≡ 0)
      × ((t.state ≡ (if c.var_len then decoding_generic_frame_len else decoding_payload))
          ⊎ (t.state ≡ (if c.preamble_len == 0 then searching_sync else searching)))
