-- ===== src/Proxy/Tests.antt =====
-- The theorems on the proxy at concrete inputs.
use bento.Shared.{
  ℕ, true, false, ◌&&◌, ◌||◌, leb, nat_beq, [], ◌∷◌, ◌++◌, none, some, ◌≡◌, ◌⊎◌, ◌↔◌, refl,
  contains, nat_eq, string_eq,
}
use bento.Shared.Int.{pos}
use bento.Shared.Parse.{chars}
use bento.Shared.Texts.{Text, text_eq, lower, to_lower, trim_end, strip_suffix, digits_fit, is_u16}
use bento.Types.{
  Instance, State, DesiredState, Visibility, valid_name, starts_with_label, ends_in_label,
  all_label,
}
use bento.Config.{Config, base_label, reserved}
use bento.Proxy.Host.{
  RequestHost, original_host, before, rsplit_once, strip_port, strip_host_port, named_host,
  request_host,
}
use bento.Proxy.Headers.{Http}
use bento.Proxy.{
  Access, Lookup, Proxy, Seams, forward, not_found, builder, normal_domain, instance_domain_or,
  build, ports, route_instance, handle_connection,
}
use bento.Proxy.Reach.{IsNamed, Reaches, handle_connection-forward_iff}
use bento.Proxy.Hidden.{HiddenFrom, handle_connection-not_found_iff}
use bento.Proxy.Published.{IsNormal, handle_connection-published}
use bento.Proxy.Listeners.{AreDistinct, build-ports}

abbrev web : Instance
web = record {
  uuid = "u1";
  name = "web";
  owner_id = pos 1;
  host_id = pos 1;
  image_name = "debian";
  base_checksum = "c1";
  state = State.running;
  desired_state = DesiredState.running;
  address = "10.20.3.2";
  mac = "02:00:00:00:00:01";
  vcpu = 1;
  memory_mib = 512;
  disk_gib = 10;
  nested = false;
  ksm = true;
  http_port = 8080;
  visibility = Visibility.private;
  created_at = 0;
  last_seen_at = none;
  slot = some 0;
}

abbrev domain : Text
domain = chars "b.example"

abbrev front : Proxy
front = record {
  base_domain = domain;
  instance_domain = domain;
  main_port = 443;
  high_min = 3000;
  high_max = 9999;
}

-- Every name is the instance's, and the check answers alike for every caller.
abbrev seams : Access → Seams
seams access = record {
  instance_by_name = λ name. Lookup.found web;
  sessions = some (λ uuid. access);
  has_control = true;
  has_last_seen = true;
}

abbrev to_web : RequestHost
to_web = record { host_header = some (chars "web" ++ (b'.' ∷ domain)); authority = none }

to_web-host : request_host to_web none ≡ chars "web.b.example"
unfolding request_host named_host original_host strip_host_port strip_port rsplit_once before
    to_lower lower trim_end is_u16 digits_fit
to_web-host = refl

to_web-IsNamed : IsNamed front (request_host to_web none) (chars "web")
to_web-IsNamed = record {
  not_base = λ e. cc (to_web-host);
  spelled = to_web-host;
  not_empty = λ e. cc;
  one_label = refl;
}

handle_connection-forward_iff_example :
    (handle_connection front (seams Access.granted) 443 to_web none ≡ forward web 8080)
    ↔ Reaches front (seams Access.granted) 443 (request_host to_web none) web 8080
handle_connection-forward_iff_example =
    handle_connection-forward_iff front (seams Access.granted) 443 to_web none web 8080

handle_connection-not_found_iff_example :
    (handle_connection front (seams Access.forbidden) 443 to_web none ≡ not_found) ↔ (
      (Lookup.found web ≡ Lookup.missing)
      ⊎ ((i : Instance) × (Lookup.found web ≡ Lookup.found i)
          × HiddenFrom front (seams Access.forbidden) 443 i))
handle_connection-not_found_iff_example =
    handle_connection-not_found_iff front (seams Access.forbidden) 443 to_web none (chars "web")
      to_web-IsNamed

abbrev cfg : Config
cfg = record { base_domain = domain; instance_domain = domain; reserved_names = chars "www" ∷ [] }

domain-IsNormal : IsNormal domain
domain-IsNormal = record {
  not_empty = λ e. cc;
  in_lower = unfold to_lower lower in refl;
  no_port = refl;
  no_dot_end = unfold trim_end in refl;
}

handle_connection-published_example :
    handle_connection front (seams Access.granted) 3000 to_web none
    ≡ route_instance front (seams Access.granted) 3000 (Lookup.found web)
handle_connection-published_example =
    handle_connection-published cfg front (seams Access.granted) 3000 (chars "web") refl refl
      domain-IsNormal (unfold valid_name starts_with_label ends_in_label all_label in refl)
      (unfold reserved base_label strip_suffix in refl)

build-ports_example :
    ((q : ℕ) → contains (ports front) q ≡ (nat_beq 443 q || (leb 3000 q && leb q 9999)))
    × AreDistinct (ports front)
build-ports_example =
    build-ports (builder (chars "B.example.")) {p = front}
      (unfold builder build normal_domain instance_domain_or to_lower lower trim_end in refl)

-- An HTTP library in which every text is a value and no text is a name.
abbrev plain_http : Http
plain_http = record { to_str = λ v. some v; from_str = λ t. some t; name_of = λ t. none }
