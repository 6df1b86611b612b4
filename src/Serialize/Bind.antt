-- ===== src/Serialize/Bind.antt =====
-- The `bind` members of `SDataStream` (src/core/serialization/stream.hpp). A bound object is changed
-- in place, also on the way to an error: a member returns the outcome, the object and the stream.
use znode.Common.{ℕ, ◌+◌, Bool, true, List, length, some, none, Outcome, success, failure}
use znode.Common.Words.{add64}
use znode.Errors.{ErrorCode}
use znode.Stream.Defs.{Status, write, write_count, read}
use znode.Serialize.Defs.{
  SDataStream, Action, compute_size, serialize, deserialize, M, ◌>>=◌, on_base, write_data, read_as,
  write_bool, read_bool, write_compact, read_compact, ser_compact_sizeof,
}

abbrev pub Bind : Type 0 → Type 0
Bind T = T → Action → SDataStream → Status × T × SDataStream

-- The object stays as it was, or takes the value that was read.
keep {ℓ} : {T : Type ℓ} → T → Status × SDataStream → Status × T × SDataStream
keep obj (r, s) = (r, obj, s)

assign : {T : Type 0} → T → Outcome ErrorCode T → SDataStream → Status × T × SDataStream
assign old (success new) s = (success tt, new, s)
assign old (failure e) s = (failure e, old, s)

-- `computed_size_ += count`.
unfoldable pub count : ℕ → SDataStream → SDataStream
count n s = record s { computed_size = add64 s.computed_size n }

-- An integer of `width` bytes.
unfoldable pub bind_int : ℕ → Bind ℕ
unfolding keep assign count
bind_int width obj compute_size s = (success tt, obj, count width s)
bind_int width obj serialize s = keep obj (write_data width obj s)
bind_int width obj deserialize s = assign obj (read_as width s).0 (read_as width s).1

unfoldable pub bind_bool : Bind Bool
unfolding keep assign count
bind_bool obj compute_size s = (success tt, obj, count 1 s)
bind_bool obj serialize s = keep obj (write_bool obj s)
bind_bool obj deserialize s = assign obj (read_bool s).0 (read_bool s).1

-- `Bytes`, which is always a structure's last member: its size is not recorded.
unfoldable pub bind_bytes : Bind (List ℕ)
unfolding keep assign count
bind_bytes obj compute_size s = (success tt, obj, count (length obj) s)
bind_bytes obj serialize s = keep obj (on_base (λ t. write t obj) s)
bind_bytes obj deserialize s = let (r, s') = on_base (λ t. read t none) s in assign obj r s'

-- `std::array` of `size` bytes.
unfoldable pub bind_array : ℕ → Bind (List ℕ)
unfolding keep assign count
bind_array size obj compute_size s = (success tt, obj, count size s)
bind_array size obj serialize s = keep obj (on_base (λ t. write_count t obj size) s)
bind_array size obj deserialize s =
    let (r, s') = on_base (λ t. read t (some size)) s in assign obj r s'

-- `std::string`.
read_string : M (List ℕ)
read_string = do data_length ← read_compact true; on_base (λ t. read t (some data_length))

write_string : List ℕ → M (Unit {0})
write_string obj = do u ← write_compact (length obj); on_base (λ t. write t obj)

unfoldable pub bind_string : Bind (List ℕ)
unfolding keep assign count read_string write_string
bind_string obj compute_size s =
    (success tt, obj, count (ser_compact_sizeof (length obj) + length obj) s)
bind_string obj serialize s = keep obj (write_string obj s)
bind_string obj deserialize s = assign obj (read_string s).0 (read_string s).1

-- `if (not result.has_error()) result = stream.bind(...)`.
continue : {T : Type 0} → Status → Bind T → Bind T
continue (success u) k t action s = k t action s
continue (failure e) k t action s = (failure e, t, s)

infixl 5 ◌⨾◌
unfoldable pub ◌⨾◌ : {T : Type 0} → Bind T → Bind T → Bind T
unfolding continue
◌⨾◌ m k t action s = let (r, t', s') = m t action s in continue r k t' action s'

-- A member variable of a structure.
unfoldable pub field : {T A : Type 0} → (T → A) → (A → T → T) → Bind A → Bind T
field get put_back member t action s =
    let (r, a, s') = member (get t) action s in (r, put_back a t, s')

-- A member variable that is bound by way of a local of another form, and assigned from it
-- afterwards.
unfoldable pub via : {A B : Type 0} → (A → B) → (B → A) → Bind B → Bind A
via to back m a action s = let (r, b, s') = m (to a) action s in (r, back b, s')

-- The same chain where what follows is no `bind` alone.
abbrev pub and_then :
    {T : Type 0}
    → Status × T × SDataStream
    → (T → SDataStream → Status × T × SDataStream)
    → Status × T × SDataStream
and_then (success u, t, s) k = k t s
and_then (failure e, t, s) k = (failure e, t, s)

-- The outcome of a member, put back into its structure.
abbrev pub into : {T A : Type 0} → (A → T) → Status × A × SDataStream → Status × T × SDataStream
into put_back (r, a, s) = (r, put_back a, s)
