-- ===== src/Ax25/Pmt.antt =====
-- GNU Radio's messages, which the encoders take. The library is not part of the repository: its
-- functions are the fields of a record.
use satnogs_gr_oot.Base.{ℕ, Bool, List}

pub record Pmt : Type 1 where
  pub Message : Type 0
  pub is_blob : Message → Bool
  pub is_pair : Message → Bool
  pub cdr : Message → Message
  pub uniform_vector_elements : Message → List ℕ
