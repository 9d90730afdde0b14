-- ===== src/Network/Machine/Applied.antt =====
-- A machine's kernel after the routes of its plan are converged: crates/network/src/machine.rs over
-- crates/network/src/routes.rs.
use bento.Shared.{◌≤◌, ◌<◌}
use bento.Network.Error.{Error}
use bento.Network.Prefix.{u32_mod}
use bento.Network.Routes.{Route, route_eq}

-- A route of a plan: to a part of a /24, at an address that exists.
abbrev IsPartRoute : Route → Type 0
IsPartRoute r =
    (24 ≤ r.destination.bits) × (r.destination.bits ≤ 27) × (r.destination.addr < u32_mod)
