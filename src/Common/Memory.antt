-- ===== src/Common/Memory.antt =====
-- Buffers as lists of bytes, `memcpy` in and out of them, and the byte orders of the integers.
-- The host is little-endian, as on x86-64; `net` is the network's order.
use Prim.Native.Nat.{ℕ, zero, suc, ◌+◌, ◌*◌, ◌/◌, ◌%◌, ◌^◌, ◌≤◌, ◌<◌}
use mathlib.Core.Path.{◌≡◌, refl, sym, ap, ◌∙◌}
use mathlib.Core.List.{List, [], ◌∷◌, ◌++◌, append_assoc}
use mathlib.Core.Option.{Option, none, some}
use native.Mathlib.Omega.{arith}
use linfo1341_project.Common.Faults.{Returns, returns}
use linfo1341_project.Common.Compare.{leb, if◌then◌else◌}
use linfo1341_project.Common.Lists.{
  length, take, drop, replicate, length-append, length-take, length-drop, take-append, drop-append,
  drop-drop,
}

-- `n` bytes from `off` on; a fault if they are not all inside the buffer.
unfoldable pub read_bytes : List ℕ → ℕ → ℕ → Option (List ℕ)
read_bytes buf off n = if leb (off + n) (length buf) then some (take n (drop off buf)) else none

-- The buffer with `bytes` written from `off` on; a fault if they do not all fit.
unfoldable pub write_bytes : List ℕ → ℕ → List ℕ → Option (List ℕ)
write_bytes buf off bytes =
    if leb (off + length bytes) (length buf)
    then some (take off buf ++ (bytes ++ drop (off + length bytes) buf))
    else none

-- The memory of a `uint16_t` and a `uint32_t` in network order, and of a `uint32_t` in the host's.
abbrev pub net16 : ℕ → List ℕ
net16 v = (v / 256 % 256) ∷ (v % 256) ∷ []

abbrev pub net32 : ℕ → List ℕ
net32 v = (v / 2 ^ 24 % 256) ∷ (v / 2 ^ 16 % 256) ∷ (v / 256 % 256) ∷ (v % 256) ∷ []

abbrev pub host32 : ℕ → List ℕ
host32 v = (v % 256) ∷ (v / 256 % 256) ∷ (v / 2 ^ 16 % 256) ∷ (v / 2 ^ 24 % 256) ∷ []

-- The number that such memory holds, in network order and in the host's.
abbrev pub net_value_from : ℕ → List ℕ → ℕ
net_value_from acc [] = acc
net_value_from acc (b ∷ bs) = net_value_from (acc * 256 + b) bs

abbrev pub net_value : List ℕ → ℕ
net_value = net_value_from 0

abbrev pub host_value : List ℕ → ℕ
host_value [] = 0
host_value (b ∷ bs) = b + 256 * host_value bs

pub net_value-net16 : (v : ℕ) → v < 2 ^ 16 → net_value (net16 v) ≡ v
net_value-net16 v h = omega arith

pub net_value-net32 : (v : ℕ) → v < 2 ^ 32 → net_value (net32 v) ≡ v
net_value-net32 v h = omega arith

pub host_value-host32 : (v : ℕ) → v < 2 ^ 32 → host_value (host32 v) ≡ v
host_value-host32 v h = omega arith

pub write_bytes_in :
    (buf : List ℕ) (off : ℕ) (bytes : List ℕ)
    → off + length bytes ≤ length buf
    → write_bytes buf off bytes ≡ some (take off buf ++ (bytes ++ drop (off + length bytes) buf))
unfolding write_bytes
write_bytes_in buf off bytes h = ground arith

pub read_bytes_in :
    (buf : List ℕ) (off n : ℕ)
    → off + n ≤ length buf
    → read_bytes buf off n ≡ some (take n (drop off buf))
unfolding read_bytes
read_bytes_in buf off n h = ground arith

-- Reading behind a part of the buffer of known size.
pub read_bytes_next :
    (pre bytes rest : List ℕ) (off n : ℕ)
    → off ≡ length pre
    → n ≡ length bytes
    → read_bytes (pre ++ (bytes ++ rest)) off n ≡ some bytes
read_bytes_next pre bytes rest off n e f =
    read_bytes_in (pre ++ (bytes ++ rest)) off n
      (omega (arith, length-append pre (bytes ++ rest), length-append bytes rest))
    ∙ ap (λ xs. some (take n xs)) (drop-append pre (bytes ++ rest) off e)
    ∙ ap some (take-append bytes rest n f)

-- A write keeps the size of the buffer.
pub length-write_bytes :
    (buf : List ℕ) (off : ℕ) (bytes : List ℕ) {out : List ℕ}
    → write_bytes buf off bytes ≡ some out
    → length out ≡ length buf
unfolding write_bytes
length-write_bytes buf off bytes h =
    let rest = drop (off + length bytes) buf in
    ground (
      arith,
      length-append (take off buf) (bytes ++ rest),
      length-append bytes rest,
      length-take off buf,
      length-drop (off + length bytes) buf,
    )

-- Writing behind the part that is already written extends that part.
pub write_bytes_next :
    (buf pre bytes : List ℕ) (off : ℕ)
    → off ≡ length pre
    → off + length bytes ≤ length buf
    → write_bytes (pre ++ drop off buf) off bytes
      ≡ some ((pre ++ bytes) ++ drop (off + length bytes) buf)
write_bytes_next buf pre bytes off e h =
    write_bytes_in (pre ++ drop off buf) off bytes
      (omega (arith, length-append pre (drop off buf), length-drop off buf))
    ∙ ap some (
        ap (λ xs. xs ++ (bytes ++ drop (off + length bytes) (pre ++ drop off buf)))
          (take-append pre (drop off buf) off e)
        ∙ ap (λ xs. pre ++ (bytes ++ xs)) tail
        ∙ sym (append_assoc pre bytes (drop (off + length bytes) buf)))
  where
    tail : drop (off + length bytes) (pre ++ drop off buf) ≡ drop (off + length bytes) buf
    tail =
        sym (drop-drop off (length bytes) (pre ++ drop off buf))
        ∙ ap (drop (length bytes)) (drop-append pre (drop off buf) off e)
        ∙ drop-drop off (length bytes) buf

-- Every number of the list is a byte.
abbrev pub IsBytes : List ℕ → Type 0
IsBytes [] = Unit {0}
IsBytes (b ∷ bs) = (b < 256) × IsBytes bs

pub take-IsBytes : (n : ℕ) (bs : List ℕ) → IsBytes bs → IsBytes (take n bs)
take-IsBytes zero bs h = tt
take-IsBytes (suc n) [] h = tt
take-IsBytes (suc n) (b ∷ bs) h = (h.0, take-IsBytes n bs h.1)

pub drop-IsBytes : (n : ℕ) (bs : List ℕ) → IsBytes bs → IsBytes (drop n bs)
drop-IsBytes zero bs h = h
drop-IsBytes (suc n) [] h = tt
drop-IsBytes (suc n) (b ∷ bs) h = drop-IsBytes n bs h.1

pub append-IsBytes : (xs ys : List ℕ) → IsBytes xs → IsBytes ys → IsBytes (xs ++ ys)
append-IsBytes [] ys h k = k
append-IsBytes (x ∷ xs) ys h k = (h.0, append-IsBytes xs ys h.1 k)

pub zeros-IsBytes : (n : ℕ) → IsBytes (replicate n 0)
zeros-IsBytes zero = tt
zeros-IsBytes (suc n) = (omega arith, zeros-IsBytes n)

pub net_value-lt_byte : (bs : List ℕ) → IsBytes bs → length bs ≡ 1 → net_value bs < 256
net_value-lt_byte [] h e = omega arith
net_value-lt_byte (a ∷ []) h e = omega arith
net_value-lt_byte (a ∷ b ∷ bs) h e = absurd (omega arith)

pub host_value-lt : (bs : List ℕ) → IsBytes bs → length bs ≡ 4 → host_value bs < 2 ^ 32
host_value-lt (a ∷ b ∷ c ∷ d ∷ []) h e = omega arith
host_value-lt _ h e = absurd (omega arith)

-- The bytes of a read inside the buffer
pub record ReadAt (buf : List ℕ) (off n : ℕ) (bytes : List ℕ) : Type 0 where
  pub at : bytes ≡ take n (drop off buf)
  pub size : length bytes ≡ n
  pub is_bytes : IsBytes bytes

pub read_bytes-Returns :
    (buf : List ℕ) (off n : ℕ)
    → IsBytes buf
    → off + n ≤ length buf
    → Returns (ReadAt buf off n) (read_bytes buf off n)
read_bytes-Returns buf off n b h = rw (read_bytes_in buf off n h) (
    returns (record {
      at = refl;
      size = omega (arith, length-take n (drop off buf), length-drop off buf);
      is_bytes = take-IsBytes n (drop off buf) (drop-IsBytes off buf b);
    }))
