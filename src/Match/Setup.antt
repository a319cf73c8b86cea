-- ===== src/Match/Setup.antt =====
-- The framing of a serialized setup, `AddSetupBytes` of private_set_intersection/cpp/psi_match.cpp:
-- one `raw` field whose body is a run of entries. The setup's fields of the class are a record.
pub mod Frame
pub mod Stages
pub mod Lengths
pub mod Rounds
pub mod Windows
pub mod Filled
use open_mined_psi.Base.{
  ℕ, zero, suc, ◌-◌, ◌^◌, min, Bool, true, false, not, Bytes, [], ◌∷◌, Option, none, some, length,
  take, drop, ◌==◌, if◌then◌else◌,
}
use open_mined_psi.Status.{
  server_setup, not_single_raw, element_past_end, bytes_after_raw, Error, invalid_argument, Result,
  ok, err, Status, done,
}
use open_mined_psi.Match.Reader.{
  EntryReader, new_reader, at_entry_boundary, field1_length_delimited, add_varint32_byte, feed,
}
use open_mined_psi.Match.Slots.{SetupStore, no_setup, add_setup_element}

pub data SetupFrame : Type 0 where
  k_tag k_length k_body k_done : SetupFrame

pub record Setup : Type 0 where
  pub setup_frame : SetupFrame
  pub raw_length : ℕ
  pub raw_length_bytes : ℕ
  pub raw_remaining : ℕ
  pub setup_reader : EntryReader
  pub store : SetupStore

abbrev pub new_setup : Setup
new_setup = record {
  setup_frame = k_tag;
  raw_length = 0;
  raw_length_bytes = 0;
  raw_remaining = 0;
  setup_reader = new_reader;
  store = no_setup;
}

-- One round of the loop: go on with the bytes left, return a refusal, or the reader ran out of fuel.
pub data Round : Type 0 where
  go : Setup → Bytes → Round
  stop : Setup → Error → Round
  starved : Round

unfoldable pub read_raw_tag : Setup → ℕ → Bytes → Round
read_raw_tag m c rest =
    if c == field1_length_delimited
    then go (record m { setup_frame = k_length }) rest
    else stop m (invalid_argument not_single_raw)

-- `case SetupFrame::kLength` once the varint is complete
unfoldable pub begin_raw : Setup → Setup
begin_raw m = record m {
  raw_remaining = m.raw_length;
  setup_frame = if m.raw_length == 0 then k_done else k_body;
}

unfoldable pub read_raw_length : Setup → ℕ → Bytes → Round
read_raw_length m c rest = elim (add_varint32_byte c m.raw_length m.raw_length_bytes server_setup) [
  | err e ↦ stop m e
  | ok v ↦
      let m' = record m { raw_length = v.value; raw_length_bytes = v.bytes_read } in
      go (if v.complete then begin_raw m' else m') rest
]

-- The last byte of the body must end an entry.
unfoldable pub end_raw : Setup → Bytes → Round
end_raw m rest =
    if not (m.raw_remaining == 0)
    then go m rest
    else if not (at_entry_boundary m.setup_reader)
    then stop m (invalid_argument element_past_end)
    else go (record m { setup_frame = k_done }) rest

-- `case SetupFrame::kBody`; `std::min<uint64_t>` keeps the subtraction from wrapping.
unfoldable pub read_raw_body : Setup → Bytes → Round
read_raw_body m bytes =
    let taken = min m.raw_remaining (length bytes) in
    elim (feed add_setup_element m.setup_reader (take taken bytes) m.store) [
      | none ↦ starved
      | some fed ↦
          let m' = record m { setup_reader = fed.reader; store = fed.owner } in
          elim fed.status [
            | err e ↦ stop m' e
            | ok _ ↦
                end_raw (record m' { raw_remaining = m.raw_remaining - taken }) (drop taken bytes)
          ]
    ]

unfoldable pub setup_round : SetupFrame → Setup → ℕ → Bytes → Round
setup_round k_tag m c rest = read_raw_tag m c rest
setup_round k_length m c rest = read_raw_length m c rest
setup_round k_body m c rest = read_raw_body m (c ∷ rest)
setup_round k_done m c rest = stop m (invalid_argument bytes_after_raw)

-- The loop on fuel: `none` means that the fuel ran out.
unfoldable pub setup_loop : ℕ → Setup → Bytes → Option (Status × Setup)
setup_loop fuel m [] = some (done, m)
setup_loop zero m (c ∷ rest) = none
setup_loop (suc fuel) m (c ∷ rest) = elim (setup_round m.setup_frame m c rest) [
  | go m' rest' ↦ setup_loop fuel m' rest'
  | stop m' e ↦ some (err e, m')
  | starved ↦ none
]

-- Each round reads a byte at least, so one round for each byte is enough.
unfoldable pub read_setup : Setup → Bytes → Option (Status × Setup)
read_setup m bytes = setup_loop (length bytes) m bytes
