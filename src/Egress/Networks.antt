-- ===== src/Egress/Networks.antt =====
-- The networks that `is_blocked_ip` of crates/pipe-bolt-core/src/forwarder.rs is there to keep
-- webhooks out of, by the ranges of their addresses.
use pipe_bolt.Prelude.{
  Bool-cases, arith, inl, inr, leb, true, ℕ, ◌&&◌, ◌+◌, ◌/◌, ◌==◌, ◌↔◌, ◌≡◌, ◌≤◌,
}
use pipe_bolt.Egress.{IpAddr, is_blocked_ip, v4, v6}

-- The addresses of IPv4 by their bytes, and those of IPv6 by their groups of 16 bits.
pub data IsReserved : IpAddr → Type 0 where
  -- 10.0.0.0/8, 172.16.0.0/12 and 192.168.0.0/16
  private_a : {a b c d : ℕ} → a ≡ 10 → IsReserved (v4 a b c d)
  private_b : {a b c d : ℕ} → a ≡ 172 → 16 ≤ b → b ≤ 31 → IsReserved (v4 a b c d)
  private_c : {a b c d : ℕ} → a ≡ 192 → b ≡ 168 → IsReserved (v4 a b c d)
  -- 127.0.0.0/8
  loopback : {a b c d : ℕ} → a ≡ 127 → IsReserved (v4 a b c d)
  -- 169.254.0.0/16
  link_local : {a b c d : ℕ} → a ≡ 169 → b ≡ 254 → IsReserved (v4 a b c d)
  -- 224.0.0.0/4
  multicast : {a b c d : ℕ} → 224 ≤ a → a ≤ 239 → IsReserved (v4 a b c d)
  broadcast : {a b c d : ℕ} → a ≡ 255 → b ≡ 255 → c ≡ 255 → d ≡ 255 → IsReserved (v4 a b c d)
  -- 192.0.2.0/24, 198.51.100.0/24 and 203.0.113.0/24
  documentation_1 : {a b c d : ℕ} → a ≡ 192 → b ≡ 0 → c ≡ 2 → IsReserved (v4 a b c d)
  documentation_2 : {a b c d : ℕ} → a ≡ 198 → b ≡ 51 → c ≡ 100 → IsReserved (v4 a b c d)
  documentation_3 : {a b c d : ℕ} → a ≡ 203 → b ≡ 0 → c ≡ 113 → IsReserved (v4 a b c d)
  unspecified : {a b c d : ℕ} → a ≡ 0 → b ≡ 0 → c ≡ 0 → d ≡ 0 → IsReserved (v4 a b c d)
  -- ::1 and ::
  loopback_6 :
      {h : ℕ} {a b c d e f g : ℕ}
      → a + b + c + d + e + f + g ≡ 0
      → h ≡ 1
      → IsReserved (v6 a b c d e f g h)
  unspecified_6 :
      {a b c d e f g h : ℕ} → a + b + c + d + e + f + g + h ≡ 0 → IsReserved (v6 a b c d e f g h)
  -- ff00::/8, fc00::/7 and fe80::/10
  multicast_6 : {a b c d e f g h : ℕ} → 0xff00 ≤ a → a ≤ 0xffff → IsReserved (v6 a b c d e f g h)
  unique_local_6 : {a b c d e f g h : ℕ} → 0xfc00 ≤ a → a ≤ 0xfdff → IsReserved (v6 a b c d e f g h)
  link_local_6 : {a b c d e f g h : ℕ} → 0xfe80 ≤ a → a ≤ 0xfebf → IsReserved (v6 a b c d e f g h)

blocked_of : {ip : IpAddr} → IsReserved ip → is_blocked_ip ip ≡ true
unfolding is_blocked_ip
blocked_of (private_a e) = ground arith
blocked_of (private_b e h k) = ground arith
blocked_of (private_c e h) = ground arith
blocked_of (loopback e) = ground arith
blocked_of (link_local e h) = ground arith
blocked_of (multicast h k) = ground arith
blocked_of (broadcast e f g h) = ground arith
blocked_of (documentation_1 e f g) = ground arith
blocked_of (documentation_2 e f g) = ground arith
blocked_of (documentation_3 e f g) = ground arith
blocked_of (unspecified e f g h) = ground arith
blocked_of (loopback_6 e h) = ground arith
blocked_of (unspecified_6 e) = ground arith
blocked_of (multicast_6 h k) = ground arith
blocked_of (unique_local_6 h k) = ground arith
blocked_of (link_local_6 h k) = ground arith

is_blocked_v4 : (a b c d : ℕ) → is_blocked_ip (v4 a b c d) ≡ true → IsReserved (v4 a b c d)
unfolding is_blocked_ip
is_blocked_v4 a b c d blocked = elim (Bool-cases (a == 10)) [
  | inl e ↦ private_a (ground arith)
  | inr n10 ↦ elim (Bool-cases (a == 172 && (leb 16 b && leb b 31))) [
    | inl e ↦ private_b (ground arith) (ground arith) (ground arith)
    | inr n9 ↦ elim (Bool-cases (a == 192 && b == 168)) [
      | inl e ↦ private_c (ground arith) (ground arith)
      | inr n8 ↦ elim (Bool-cases (a == 127)) [
        | inl e ↦ loopback (ground arith)
        | inr n7 ↦ elim (Bool-cases (a == 169 && b == 254)) [
          | inl e ↦ link_local (ground arith) (ground arith)
          | inr n6 ↦ elim (Bool-cases (leb 224 a && leb a 239)) [
            | inl e ↦ multicast (ground arith) (ground arith)
            | inr n5 ↦ elim (Bool-cases (a == 192 && (b == 0 && c == 2))) [
              | inl e ↦ documentation_1 (ground arith) (ground arith) (ground arith)
              | inr n4 ↦ elim (Bool-cases (a == 198 && (b == 51 && c == 100))) [
                | inl e ↦ documentation_2 (ground arith) (ground arith) (ground arith)
                | inr n3 ↦ elim (Bool-cases (a == 203 && (b == 0 && c == 113))) [
                  | inl e ↦ documentation_3 (ground arith) (ground arith) (ground arith)
                  | inr n2 ↦ elim (Bool-cases (a == 255 && (b == 255 && (c == 255 && d == 255)))) [
                    | inl e ↦ broadcast (ground arith) (ground arith) (ground arith) (ground arith)
                    | inr n1 ↦
                        unspecified (ground arith) (ground arith) (ground arith) (ground arith)
                  ]
                ]
              ]
            ]
          ]
        ]
      ]
    ]
  ]
]

is_blocked_v6 :
    (a b c d e f g h : ℕ)
    → is_blocked_ip (v6 a b c d e f g h) ≡ true
    → IsReserved (v6 a b c d e f g h)
unfolding is_blocked_ip
is_blocked_v6 a b c d i f g h blocked = elim (Bool-cases (a / 0x100 == 0xff)) [
  | inl e ↦ multicast_6 (ground arith) (ground arith)
  | inr n4 ↦ elim (Bool-cases (a / 0x200 == 0x7e)) [
    | inl e ↦ unique_local_6 (ground arith) (ground arith)
    | inr n3 ↦ elim (Bool-cases (a / 0x40 == 0x3fa)) [
      | inl e ↦ link_local_6 (ground arith) (ground arith)
      | inr n2 ↦ elim (Bool-cases (h == 1)) [
        | inl e ↦ loopback_6 (ground arith) (ground arith)
        | inr n1 ↦ unspecified_6 (ground arith)
      ]
    ]
  ]
]

-- The addresses that are blocked are those of the reserved networks.
pub is_blocked_ip_iff : (ip : IpAddr) → (is_blocked_ip ip ≡ true) ↔ IsReserved ip
is_blocked_ip_iff (v4 a b c d) = (is_blocked_v4 a b c d, blocked_of)
is_blocked_ip_iff (v6 a b c d e f g h) = (is_blocked_v6 a b c d e f g h, blocked_of)
