-- ===== src/History/Corrections.antt =====
-- `CorrectionCache` of history.rs: the latest value of each edited property or parent, bounded in
-- entries and bytes. Where something is dropped, `lost_through` remembers up to which revision.
pub mod Bounds
pub mod Tracking
use norves_editor.Common.{
  ℕ, zero, suc, ◌+◌, ◌≤◌, ◌≡◌, ◌↔◌, Bool, true, false, ◌&&◌, ◌||◌, String, Option, none, some, List,
  [], ◌∷◌, arith, length, retain, any, if◌then◌else◌, ltb, leb, max, Eq, ◌==◌, string_eq,
  saturating_add, saturating_sub, u64_max,
}
use norves_editor.Common.Dict
use norves_editor.Common.Dict.{Dict}
use norves_editor.History.Types.{Json}
use Prim.Native.String.{len}
use text.Mathlib.TextEquality.{eq_iff}

abbrev pub max_correction_entries : ℕ
max_correction_entries = 512

-- 4 * 1024 * 1024
abbrev pub max_correction_bytes : ℕ
max_correction_bytes = 4194304

pub data CorrectionKey : Type 0 where
  property : (object_id name : String) → CorrectionKey
  parent : (object_id : String) → CorrectionKey

abbrev pub key_beq : CorrectionKey → CorrectionKey → Bool
key_beq (property o p) (property o' p') = o == o' && p == p'
key_beq (parent o) (parent o') = o == o'
key_beq _ _ = false

pub key_beq_iff : (a b : CorrectionKey) → (key_beq a b ≡ true) ↔ (a ≡ b)
key_beq_iff (property o p) (property o' p') = ground (arith, eq_iff o o', eq_iff p p')
key_beq_iff (property o p) (parent o') = ground arith
key_beq_iff (parent o) (property o' p') = ground arith
key_beq_iff (parent o) (parent o') = ground (arith, eq_iff o o')

instance abbrev pub key_eq : Eq CorrectionKey
key_eq = record { equal = key_beq; equal_iff = key_beq_iff }

pub data CorrectionValue (V : Type 0) : Type 0 where
  property : V → CorrectionValue V
  parent : Option String → CorrectionValue V

pub record CorrectionEntry (V : Type 0) : Type 0 where
  pub revision : ℕ
  pub value : CorrectionValue V
  pub byte_len : ℕ

pub record CorrectionCache (V : Type 0) : Type 0 where
  pub entries : Dict CorrectionKey (CorrectionEntry V)
  pub bytes : ℕ
  pub lost_through : ℕ

abbrev pub empty : {V : Type 0} → CorrectionCache V
empty = record { entries = []; bytes = 0; lost_through = 0 }

-- `CorrectionKey::byte_len`
unfoldable pub key_byte_len : CorrectionKey → ℕ
key_byte_len (CorrectionKey.property o p) = saturating_add (len o) (len p)
key_byte_len (CorrectionKey.parent o) = len o

unfoldable pub key_object : CorrectionKey → String
key_object (CorrectionKey.property o p) = o
key_object (CorrectionKey.parent o) = o

module _ {V : Type 0} where
  -- `CorrectionValue::byte_len`
  unfoldable pub value_byte_len : Json V → CorrectionValue V → Option ℕ
  value_byte_len j (CorrectionValue.property v) = j.to_vec_len v
  value_byte_len j (CorrectionValue.parent p) = j.text_to_vec_len p

  unfoldable pub mark_lost_through : CorrectionCache V → ℕ → CorrectionCache V
  mark_lost_through c revision = record c { lost_through = max c.lost_through revision }

  -- The entry of least revision, the first of these in the map's order.
  unfoldable pub oldest :
      Dict CorrectionKey (CorrectionEntry V) → Option (CorrectionKey × CorrectionEntry V)
  oldest [] = none
  oldest ((k, e) ∷ m) = elim (oldest m) [
    | none ↦ some (k, e)
    | some (k', e') ↦ if leb e.revision e'.revision then some (k, e) else some (k', e')
  ]

  -- Removes the entry of a key, and its bytes from the total.
  unfoldable pub drop_entry : CorrectionCache V → CorrectionKey → CorrectionCache V
  drop_entry c key = elim (Dict.get key c.entries) [
    | none ↦ c
    | some e ↦ record c {
      entries = Dict.remove key c.entries;
      bytes = saturating_sub c.bytes e.byte_len;
    }
  ]

  unfoldable pub evict : CorrectionCache V → CorrectionKey → CorrectionEntry V → CorrectionCache V
  unfolding mark_lost_through
  evict c key e =
      mark_lost_through
        (record c {
          entries = Dict.remove key c.entries;
          bytes = saturating_sub c.bytes e.byte_len;
        })
        e.revision

  unfoldable pub is_over : CorrectionCache V → ℕ → Bool
  is_over c byte_len =
      leb max_correction_entries (length c.entries)
      || ltb max_correction_bytes (saturating_add c.bytes byte_len)

  -- The `while` loop of `insert`: each round drops the oldest entry.
  unfoldable pub make_room : ℕ → CorrectionCache V → ℕ → CorrectionCache V
  make_room zero c byte_len = c
  make_room (suc fuel) c byte_len = elim (is_over c byte_len) [
    | false ↦ c
    | true ↦ elim (oldest c.entries) [
      | none ↦ c
      | some (key, e) ↦ make_room fuel (evict c key e) byte_len
    ]
  ]

  unfoldable pub store : CorrectionCache V → CorrectionKey → CorrectionEntry V → CorrectionCache V
  store c key e = record c {
    entries = Dict.insert key e c.entries;
    bytes = saturating_add c.bytes e.byte_len;
  }

  -- `key.byte_len().checked_add(value.byte_len().unwrap_or(usize::MAX))`; a sum past `usize` is also
  -- past the limit of bytes.
  unfoldable pub needed_bytes : Json V → CorrectionKey → CorrectionValue V → ℕ
  unfolding key_byte_len value_byte_len
  needed_bytes j key value =
      key_byte_len key + elim (value_byte_len j value) [ none ↦ u64_max | some n ↦ n ]

  unfoldable pub insert :
      Json V → CorrectionCache V → CorrectionKey → ℕ → CorrectionValue V → CorrectionCache V
  insert j c key revision value =
      let n = needed_bytes j key value in
      let c' = drop_entry c key in
      if ltb u64_max n
      then mark_lost_through c' revision
      else if ltb max_correction_bytes n
      then mark_lost_through c' revision
      else store (make_room (length c'.entries) c' n) key
          (record { revision = revision; value = value; byte_len = n })

  unfoldable pub clear : CorrectionCache V → CorrectionCache V
  clear c = record { entries = []; bytes = 0; lost_through = 0 }

  unfoldable pub clear_and_mark_lost_through : CorrectionCache V → ℕ → CorrectionCache V
  clear_and_mark_lost_through c revision = record {
    entries = [];
    bytes = 0;
    lost_through = revision;
  }

  -- The keys of the object, in the map's order.
  unfoldable pub keys_of : String → Dict CorrectionKey (CorrectionEntry V) → List CorrectionKey
  keys_of object_id [] = []
  keys_of object_id ((k, e) ∷ m) =
      if key_object k == object_id then k ∷ keys_of object_id m else keys_of object_id m

  unfoldable pub drop_all : CorrectionCache V → List CorrectionKey → CorrectionCache V
  drop_all c [] = c
  drop_all c (k ∷ ks) = drop_all (drop_entry c k) ks

  unfoldable pub remove_object : CorrectionCache V → String → ℕ → CorrectionCache V
  remove_object c object_id revision = elim (keys_of object_id c.entries) [
    | [] ↦ c
    | k ∷ ks ↦ mark_lost_through (drop_all c (k ∷ ks)) revision
  ]
