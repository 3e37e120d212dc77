-- ===== src/Journal/Format/Kind.antt =====
-- journal/format.rs, `RecordType`: the record type identifiers.
use ai_systems_verification.Base.{ℕ, ◌≡◌, refl, ◌⊎◌, arith, if◌then◌else◌, ◌==◌}

pub data RecordType : Type 0 where
  unknown : RecordType
  session_start : RecordType
  session_end : RecordType
  checkpoint : RecordType
  raw_frame : RecordType
  quote_update : RecordType
  trade : RecordType
  book_snapshot : RecordType
  order_submit : RecordType
  order_ack : RecordType
  order_fill : RecordType
  order_cancel : RecordType
  state_change : RecordType
  signal : RecordType

unfoldable pub as_u16 : RecordType → ℕ
as_u16 unknown = 0x0000
as_u16 session_start = 0x0001
as_u16 session_end = 0x0002
as_u16 checkpoint = 0x0003
as_u16 raw_frame = 0x0100
as_u16 quote_update = 0x0101
as_u16 trade = 0x0102
as_u16 book_snapshot = 0x0103
as_u16 order_submit = 0x0200
as_u16 order_ack = 0x0201
as_u16 order_fill = 0x0202
as_u16 order_cancel = 0x0203
as_u16 state_change = 0x0300
as_u16 signal = 0x0301

pub from_u16 : ℕ → RecordType
from_u16 value =
    if value == 0x0000
    then unknown
    else (if value == 0x0001
        then session_start
        else (if value == 0x0002
            then session_end
            else (if value == 0x0003
                then checkpoint
                else (if value == 0x0100
                    then raw_frame
                    else (if value == 0x0101
                        then quote_update
                        else (if value == 0x0102
                            then trade
                            else (if value == 0x0103
                                then book_snapshot
                                else (if value == 0x0200
                                    then order_submit
                                    else (if value == 0x0201
                                        then order_ack
                                        else (if value == 0x0202
                                            then order_fill
                                            else (if value == 0x0203
                                                then order_cancel
                                                else (if value == 0x0300
                                                    then state_change
                                                    else (if value == 0x0301
                                                        then signal
                                                        else (unknown))))))))))))))

from_u16-as_u16 : (k : RecordType) → from_u16 (as_u16 k) ≡ k
unfolding from_u16 as_u16
from_u16-as_u16 unknown = refl
from_u16-as_u16 session_start = refl
from_u16-as_u16 session_end = refl
from_u16-as_u16 checkpoint = refl
from_u16-as_u16 raw_frame = refl
from_u16-as_u16 quote_update = refl
from_u16-as_u16 trade = refl
from_u16-as_u16 book_snapshot = refl
from_u16-as_u16 order_submit = refl
from_u16-as_u16 order_ack = refl
from_u16-as_u16 order_fill = refl
from_u16-as_u16 order_cancel = refl
from_u16-as_u16 state_change = refl
from_u16-as_u16 signal = refl

as_u16-from_u16 : (value : ℕ) → (as_u16 (from_u16 value) ≡ value) ⊎ (from_u16 value ≡ unknown)
unfolding from_u16 as_u16
as_u16-from_u16 value = ground arith

-- Every record type is read back from its identifier; and an identifier is that of the type that it
-- is read as, or it is read as unknown.
pub record_type-round_trip :
    (k : RecordType) (value : ℕ)
    → (from_u16 (as_u16 k) ≡ k) × ((as_u16 (from_u16 value) ≡ value) ⊎ (from_u16 value ≡ unknown))
record_type-round_trip k value = (from_u16-as_u16 k, as_u16-from_u16 value)
