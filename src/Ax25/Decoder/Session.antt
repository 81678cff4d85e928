-- ===== src/Ax25/Decoder/Session.antt =====
-- A decoder that is given one buffer after another, as the block around it does.
use satnogs_gr_oot.Base.{ℕ, ◌+◌, ◌≤◌, Option, none, some, List, [], ◌∷◌, ◌++◌, All, length}
use satnogs_gr_oot.Ax25.{max_header_len}
use satnogs_gr_oot.Whitening.{Lfsr}
use satnogs_gr_oot.Ax25.Decoder.{Config, Decoder, Frame, new}
use satnogs_gr_oot.Ax25.Decoder.Run.{decode}
use satnogs_gr_oot.Ax25.Decoder.Invariant.{IsValid}
use satnogs_gr_oot.Ax25.Decoder.Reports.{Sound, AllSound}
use satnogs_gr_oot.Ax25.Decoder.Total.{Decodes, decode-Decodes, new-IsValid}

abbrev reported : Option Frame → List Frame
reported none = []
reported (some f) = f ∷ []

abbrev prepend : List Frame → Option (List Frame) → Option (List Frame)
prepend fs none = none
prepend fs (some gs) = some (fs ++ gs)

-- Every frame of a session that came to its end.
abbrev pub SessionSound : Config → Option (List Frame) → Type 0
SessionSound c none = ⊥
SessionSound c (some frames) = All (Sound c) frames

module _ (lfsr : Lfsr) where
  open lfsr use {State, make}

  -- The frames reported over the calls; `none` if one of them did not return.
  unfoldable pub decode_all : Config → Decoder → State → List (List ℕ) → Option (List Frame)
  decode_all c d s [] = some []
  decode_all c d s (input ∷ inputs) = elim (decode lfsr c d s input) [
    | none ↦ none
    | some (u, frame, t) ↦ prepend (reported frame) (decode_all c u t inputs)
  ]

  SessionSound-prepend :
      (c : Config) (frame : Option Frame) (rest : Option (List Frame))
      → AllSound c frame
      → SessionSound c rest
      → SessionSound c (prepend (reported frame) rest)
  SessionSound-prepend c none (some gs) h k = k
  SessionSound-prepend c (some f) (some gs) h k = (h, k)
  SessionSound-prepend c none none h k = k
  SessionSound-prepend c (some f) none h k = k

  SessionSound-call :
      (c : Config) (r : Option (Decoder × Option Frame × State))
      → Decodes lfsr c r
      → (inputs : List (List ℕ))
      → ((u : Decoder) (t : State) → IsValid c u → SessionSound c (decode_all c u t inputs))
      → SessionSound c (elim r [
        | none ↦ none
        | some (u, frame, t) ↦ prepend (reported frame) (decode_all c u t inputs)
      ])
  SessionSound-call c none h inputs go = h
  SessionSound-call c (some (u, frame, t)) (v, sound) inputs go =
      SessionSound-prepend c frame (decode_all c u t inputs) sound (go u t v)

  decode_all-from :
      (c : Config) (inputs : List (List ℕ)) (d : Decoder) (s : State)
      → IsValid c d
      → SessionSound c (decode_all c d s inputs)
  unfolding decode_all
  decode_all-from c [] d s v = tt
  decode_all-from c (input ∷ inputs) d s v =
      SessionSound-call c (decode lfsr c d s input) (decode-Decodes lfsr c d s input v) inputs
        (λ u t w. decode_all-from c inputs u t w)

  -- From a fresh decoder every sequence of calls of `decode` ends, however the bits are cut into
  -- buffers, and every frame reported on the way has a payload of at least 14 bytes and fewer than
  -- `max_frame_len`, and is marked valid unless `crc_check` is false.
  pub decode_all-SessionSound :
      (c : Config) (memory : List ℕ) (inputs : List (List ℕ))
      → c.max_frame_len + max_header_len + 2 ≤ length memory
      → SessionSound c (decode_all c (new c memory) (make 0x21 0 16) inputs)
  decode_all-SessionSound c memory inputs enough =
      decode_all-from c inputs (new c memory) (make 0x21 0 16) (new-IsValid c memory enough)
