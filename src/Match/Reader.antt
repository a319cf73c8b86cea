-- ===== src/Match/Reader.antt =====
-- `AddVarint32Byte` and `PsiMatch::EntryReader` of private_set_intersection/cpp/psi_match.{h,cpp}.
-- `Feed` is generic in the owner of the callback: a callback takes an element and the owner's state,
-- and returns its status beside the new state.
pub mod Parse
pub mod Body
pub mod Windows
pub mod Keeps
use open_mined_psi.Base.{
  ℕ, zero, suc, ◌+◌, ◌-◌, ◌*◌, ◌/◌, ◌%◌, ◌^◌, min, bit_or, Bool, true, false, not, ◌&&◌, Bytes, [],
  ◌∷◌, ◌++◌, Option, none, some, length, take, drop, ltb, leb, ◌==◌, if◌then◌else◌,
}
use open_mined_psi.Status.{
  What, element, length_too_wide, unexpected_field, element_too_long, Error, invalid_argument,
  Result, ok, err, Status, done,
}

abbrev pub field1_length_delimited : ℕ
field1_length_delimited = 0x0A

abbrev pub max_varint32_bytes : ℕ
max_varint32_bytes = 5

abbrev pub max_element_bytes : ℕ
max_element_bytes = 33

-- What `AddVarint32Byte` leaves in `*value` and `*bytes_read`, and whether the varint is complete.
pub record Varint32 : Type 0 where
  pub value : ℕ
  pub bytes_read : ℕ
  pub complete : Bool

-- `byte & 0xF0` is `byte / 16 % 16 * 16`, `byte & 0x7F` is `byte % 128`, `byte & 0x80` is bit 7.
unfoldable pub add_varint32_byte : ℕ → ℕ → ℕ → What → Result Varint32
add_varint32_byte byte value bytes_read what =
    if bytes_read == max_varint32_bytes - 1 && not (byte / 16 % 16 == 0)
    then err (invalid_argument (length_too_wide what))
    else ok (record {
      value = bit_or value (byte % 128 * 2 ^ (7 * bytes_read) % 2 ^ 32);
      bytes_read = bytes_read + 1;
      complete = byte / 128 % 2 == 0;
    })

pub data State : Type 0 where
  k_tag k_length k_body : State

pub record EntryReader : Type 0 where
  pub state : State
  pub entry_length : ℕ
  pub length_bytes : ℕ
  pub body : Bytes

abbrev pub new_reader : EntryReader
new_reader = record { state = k_tag; entry_length = 0; length_bytes = 0; body = [] }

unfoldable pub at_entry_boundary : EntryReader → Bool
at_entry_boundary r = elim r.state [ k_tag ↦ true | _ ↦ false ]

-- `std::size_t` subtraction
abbrev pub sub_size : ℕ → ℕ → ℕ
sub_size a b = (a + 2 ^ 64 - b) % 2 ^ 64

-- One round of the loop of `Feed`: go on with the bytes left, or return a refusal.
pub data Round {ℓ} (S : Type ℓ) : Type ℓ where
  go : EntryReader → Bytes → S → Round S
  stop : EntryReader → Error → S → Round S

-- What `Feed` leaves behind.
pub record Fed {ℓ} (S : Type ℓ) : Type ℓ where
  pub reader : EntryReader
  pub owner : S
  pub status : Status

-- A callback: the element and the owner's state give a status and the owner's new state.
abbrev pub OnEntry {ℓ} : Type ℓ → Type ℓ
OnEntry S = Bytes → S → Status × S

module _ {ℓ} {S : Type ℓ} where
  -- `on_entry(element)`, its status returned if it is a refusal.
  unfoldable pub deliver : OnEntry S → EntryReader → Bytes → Bytes → S → Round S
  deliver on_entry r entry rest s =
      let (status, s') = on_entry entry s in
      elim status [ ok _ ↦ go r rest s' | err e ↦ stop r e s' ]

  unfoldable pub read_tag : EntryReader → ℕ → Bytes → S → Round S
  read_tag r c rest s =
      if c == field1_length_delimited
      then go (record r { state = k_length; entry_length = 0; length_bytes = 0 }) rest s
      else stop r (invalid_argument unexpected_field) s

  -- `case State::kLength` once the varint is complete
  unfoldable pub begin_body : OnEntry S → EntryReader → Bytes → S → Round S
  begin_body on_entry r rest s =
      if ltb max_element_bytes r.entry_length
      then stop r (invalid_argument (element_too_long r.entry_length)) s
      else if r.entry_length == 0
      then deliver on_entry (record r { body = []; state = k_tag }) [] rest s
      else go (record r { body = []; state = k_body }) rest s

  unfoldable pub read_length : OnEntry S → EntryReader → ℕ → Bytes → S → Round S
  read_length on_entry r c rest s =
      elim (add_varint32_byte c r.entry_length r.length_bytes element) [
        | err e ↦ stop r e s
        | ok v ↦
            let r' = record r { entry_length = v.value; length_bytes = v.bytes_read } in
            if v.complete then begin_body on_entry r' rest s else go r' rest s
      ]

  unfoldable pub read_body : OnEntry S → EntryReader → Bytes → S → Round S
  read_body on_entry r bytes s =
      let wanted = sub_size r.entry_length (length r.body) in
      let available = length bytes in
      let taken = min wanted available in
      let body' = r.body ++ take taken bytes in
      if length r.body == 0 && leb wanted available
      then deliver on_entry (record r { state = k_tag }) (take wanted bytes) (drop wanted bytes) s
      else if length body' == r.entry_length
      then deliver on_entry (record r { body = body'; state = k_tag }) body' (drop taken bytes) s
      else go (record r { body = body' }) (drop taken bytes) s

  unfoldable pub feed_round : OnEntry S → State → EntryReader → ℕ → Bytes → S → Round S
  feed_round on_entry k_tag r c rest s = read_tag r c rest s
  feed_round on_entry k_length r c rest s = read_length on_entry r c rest s
  feed_round on_entry k_body r c rest s = read_body on_entry r (c ∷ rest) s

  -- The loop on fuel: `none` means that the fuel ran out.
  unfoldable pub feed_loop : OnEntry S → ℕ → EntryReader → Bytes → S → Option (Fed S)
  feed_loop on_entry fuel r [] s = some (record { reader = r; owner = s; status = done })
  feed_loop on_entry zero r (c ∷ rest) s = none
  feed_loop on_entry (suc fuel) r (c ∷ rest) s = elim (feed_round on_entry r.state r c rest s) [
    | go r' rest' s' ↦ feed_loop on_entry fuel r' rest' s'
    | stop r' e s' ↦ some (record { reader = r'; owner = s'; status = err e })
  ]

  -- Each round reads a byte at least, so one round for each byte is enough.
  unfoldable pub feed : OnEntry S → EntryReader → Bytes → S → Option (Fed S)
  feed on_entry r bytes s = feed_loop on_entry (length bytes) r bytes s
