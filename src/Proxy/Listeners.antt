-- ===== src/Proxy/Listeners.antt =====
-- The ports that a proxy listens on (crates/proxy/src/lib.rs).
use bento.Shared.{
  ℕ, zero, suc, ◌+◌, ◌-◌, ◌≤◌, false, ◌&&◌, ◌||◌, ltb, leb, nat_beq, List, [], ◌∷◌, ◌≡◌, arith,
  contains, nat_eq,
}
use bento.Shared.Result.{ok}
use bento.Shared.Texts.{text_eq}
use bento.Proxy.{ProxyBuilder, Proxy, build, port_range, ports}

contains-port_range :
    (rounds first q : ℕ)
    → contains (port_range rounds first) q ≡ (leb first q && ltb q (first + rounds))
unfolding port_range
contains-port_range zero first q = ground arith
contains-port_range (suc rounds) first q = ground (arith, contains-port_range rounds (first + 1) q)

-- No element stands twice.
abbrev pub AreDistinct : List ℕ → Type 0
AreDistinct [] = Unit
AreDistinct (x ∷ xs) = (contains xs x ≡ false) × AreDistinct xs

port_range-AreDistinct : (rounds first : ℕ) → AreDistinct (port_range rounds first)
unfolding port_range
port_range-AreDistinct zero first = tt
port_range-AreDistinct (suc rounds) first = (
  ground (arith, contains-port_range rounds (first + 1) first),
  port_range-AreDistinct rounds (first + 1),
)

build-ok :
    (b : ProxyBuilder) {p : Proxy}
    → build b ≡ ok p
    → (p.high_min ≤ p.high_max)
      × ((leb p.high_min p.main_port && leb p.main_port p.high_max) ≡ false)
unfolding build
build-ok b h = ground (arith, h)

-- A proxy that can be built listens on its main port and on each port from the lowest to the highest of
-- its high range, on no other port, and on no port twice.
pub build-ports :
    (b : ProxyBuilder) {p : Proxy}
    → build b ≡ ok p
    → ((q : ℕ)
        → contains (ports p) q ≡ (nat_beq p.main_port q || (leb p.high_min q && leb q p.high_max)))
      × AreDistinct (ports p)
unfolding ports
build-ports b {p} h =
    let (ordered, outside) = build-ok b {p = p} h in
    let rounds = p.high_max + 1 - p.high_min in
    (
      λ q. ground (arith, ordered, contains-port_range rounds p.high_min q),
      (
        ground (arith, ordered, outside, contains-port_range rounds p.high_min p.main_port),
        port_range-AreDistinct rounds p.high_min,
      ),
    )
