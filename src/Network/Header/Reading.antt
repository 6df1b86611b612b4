-- ===== src/Network/Header/Reading.antt =====
-- A header read from the 24 bytes that are there (src/infra/network/message.cpp).
use znode.Common.{ℕ, ◌≤◌, ◌≡◌, refl, arith, List, length, take, success}
use znode.Stream.Cursor.{IsValid, read-fits, length-unread, advance-IsValid}
use znode.Serialize.Defs.{SDataStream, le_value, deserialize}
use znode.Serialize.Bind.{bind_int, bind_array, field, ◌⨾◌}
use znode.Serialize.Canonical.{read_as-fits}
use znode.Serialize.Moves.{skip, pending, skip-skip}
use znode.Network.Header.{MessageHeader, bind_header}

-- The fields that stand at the cursor.
abbrev pub header_at : SDataStream → MessageHeader → MessageHeader
header_at s h = record h {
  network_magic = take 4 (pending s);
  command = take 12 (pending (skip s 4));
  payload_length = le_value (take 4 (pending (skip s 16)));
  payload_checksum = take 4 (pending (skip s 20));
}

array-reads :
    (n : ℕ) (old : List ℕ) (s : SDataStream)
    → IsValid s.base
    → n ≤ length (pending s)
    → bind_array n old deserialize s ≡ (success tt, take n (pending s), skip s n)
unfolding bind_array
array-reads n old s v h = rw (read-fits s.base n v h) refl

int-reads :
    (w old : ℕ) (s : SDataStream)
    → IsValid s.base
    → w ≤ length (pending s)
    → bind_int w old deserialize s ≡ (success tt, le_value (take w (pending s)), skip s w)
unfolding bind_int
int-reads w old s v h = rw (read_as-fits s w v h) refl

-- From a well-formed stream with 24 bytes unread, deserializing a header succeeds, takes these
-- bytes and sets the four fields to what stands at their offsets.
pub bind_header-reads :
    (h : MessageHeader) (s : SDataStream)
    → IsValid s.base
    → 24 ≤ length (pending s)
    → bind_header h deserialize s ≡ (success tt, header_at s h, skip s 24)
unfolding bind_header ◌⨾◌ field
bind_header-reads h s v enough =
    let n = length-unread s.base in
    let v4 = advance-IsValid s.base 4 v (omega arith) in
    let v16 = advance-IsValid s.base 16 v (omega arith) in
    let v20 = advance-IsValid s.base 20 v (omega arith) in
    rw
      (
        array-reads 4 h.network_magic s v (omega arith),
        array-reads 12 h.command (skip s 4) v4 (omega (arith, n, length-unread (skip s 4).base)),
        skip-skip s 4 12 16 (omega arith),
        int-reads 4 h.payload_length (skip s 16) v16
            (omega (arith, n, length-unread (skip s 16).base)),
        skip-skip s 16 4 20 (omega arith),
        array-reads 4 h.payload_checksum (skip s 20) v20
            (omega (arith, n, length-unread (skip s 20).base)),
        skip-skip s 20 4 24 (omega arith),
      )
      refl
