-- ===== src/Wasm.antt =====
-- libnetq/wasm/Module.c, libnetq/wasm/ModuleTypes.h: modules of WebAssembly, read and written.
-- A `NQDataReader` is the bytes that it has left; a read that fails leaves those that it did not
-- take. `malloc` gives what is asked for. A name is its characters, without the 0 at its end.
pub mod Leb
pub mod Digits
pub mod Chunks
pub mod Numbers
pub mod Import
pub mod Module
pub mod Write
pub mod Text
pub mod Reading
pub mod Sections
pub mod Sink
pub mod Writing
pub mod Gives
pub mod Ranges
pub mod RoundTrip
pub mod Again
mod Tests
use libnetq.Prelude.{
  ℕ, ◌+◌, ◌-◌, ◌*◌, ◌%◌, ◌^◌, List, [], ◌∷◌, ◌++◌, Option, none, some, Bool, true, false, not, leb,
  ltb, ◌==◌, ◌&&◌, ◌||◌, if◌then◌else◌, length, take, drop,
}
use libnetq.Leb128.Incremental
use libnetq.Leb128.Incremental.{Leb128Dec, update, value_uint32}

-- What is read, if it is, and the bytes that are left.
abbrev pub Read : Type 0 → Type 0
Read A = List ℕ → Option A × List ℕ

infixl 5 ◌>>=◌
abbrev pub then_read : {A B : Type 0} → Option A × List ℕ → (A → Read B) → Option B × List ℕ
then_read (none, rest) k = (none, rest)
then_read (some a, rest) k = k a rest

unfoldable pub ◌>>=◌ : {A B : Type 0} → Read A → (A → Read B) → Read B
(m >>= k) bytes = then_read (m bytes) k

abbrev pub give : {A : Type 0} → A → Read A
give a bytes = (some a, bytes)

abbrev pub refuse : {A : Type 0} → Read A
refuse bytes = (none, bytes)

abbrev pub read_uint8 : Read ℕ
read_uint8 [] = (none, [])
read_uint8 (b ∷ bytes) = (some b, bytes)

-- `NQDataReader_currentData` with `NQDataReader_skipAll`.
unfoldable pub read_data : ℕ → Read (List ℕ)
read_data size bytes =
    if ltb (length bytes) size then (none, bytes) else (some (take size bytes), drop size bytes)

abbrev pub leb128_round :
    ℕ
    → (Leb128Dec → Option Leb128Dec × List ℕ)
    → List ℕ
    → Bool × Leb128Dec
    → Option Leb128Dec × List ℕ
leb128_round limit next bytes (last, d) =
    if ltb limit (Incremental.size d)
    then (none, bytes)
    else if last
    then (some d, bytes)
    else next d

-- The loop of `readLeb128Uint32` and `readLeb128Uint64`, for a value of `limit` bytes.
unfoldable pub read_leb128 : ℕ → Leb128Dec → Read Leb128Dec
read_leb128 limit d [] = (none, [])
read_leb128 limit d (b ∷ bytes) =
    leb128_round limit (λ d. read_leb128 limit d bytes) bytes (update b d)

unfoldable pub read_leb128_uint32 : Read ℕ
read_leb128_uint32 = read_leb128 4 (Incremental.init false) >>= λ d. give (value_uint32 d)

unfoldable pub read_leb128_uint64 : Read ℕ
read_leb128_uint64 = read_leb128 8 (Incremental.init false) >>= λ d. give d.value

unfoldable pub read_string : Read (List ℕ)
read_string = read_leb128_uint32 >>= read_data
