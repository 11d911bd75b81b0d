-- ===== src/Segment/Fields.antt =====
-- The bytes of the integers that src/lib/segment/packet_implem.c reads, from the numbers.
use linfo1341_project.Common.{ℕ, ◌/◌, ◌%◌, ◌^◌, ◌<◌, ◌≡◌, [], ◌∷◌, arith}
use linfo1341_project.Common.Memory.{net16, net32, host32, IsBytes, net_value, host_value}

pub net32-net_value :
    (a b c d : ℕ)
    → IsBytes (a ∷ b ∷ c ∷ d ∷ [])
    → net32 (net_value (a ∷ b ∷ c ∷ d ∷ [])) ≡ a ∷ b ∷ c ∷ d ∷ []
net32-net_value a b c d h =
    let v = net_value (a ∷ b ∷ c ∷ d ∷ []) in
    let p : v / 2 ^ 24 % 256 ≡ a = omega arith in
    let q : v / 2 ^ 16 % 256 ≡ b = omega arith in
    let r : v / 256 % 256 ≡ c = omega arith in let s : v % 256 ≡ d = omega arith in cc (p, q, r, s)

pub net16-net_value : (a b : ℕ) → a < 256 → b < 256 → net16 (net_value (a ∷ b ∷ [])) ≡ a ∷ b ∷ []
net16-net_value a b h i =
    let v = net_value (a ∷ b ∷ []) in
    let p : v / 256 % 256 ≡ a = omega arith in let q : v % 256 ≡ b = omega arith in cc (p, q)

pub host32-host_value :
    (a b c d : ℕ)
    → IsBytes (a ∷ b ∷ c ∷ d ∷ [])
    → host32 (host_value (a ∷ b ∷ c ∷ d ∷ [])) ≡ a ∷ b ∷ c ∷ d ∷ []
host32-host_value a b c d h =
    let v = host_value (a ∷ b ∷ c ∷ d ∷ []) in
    let p : v % 256 ≡ a = omega arith in
    let q : v / 256 % 256 ≡ b = omega arith in
    let r : v / 2 ^ 16 % 256 ≡ c = omega arith in
    let s : v / 2 ^ 24 % 256 ≡ d = omega arith in cc (p, q, r, s)
