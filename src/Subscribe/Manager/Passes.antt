-- ===== src/Subscribe/Manager/Passes.antt =====
-- One pass of `manage_proxies` of src/subscribe/mod.rs, as a whole.
use stouter.Prelude.{
  ℕ, String, true, false, Option, some, [], ◌∷◌, Map, lookup, contains_key, nat_key, string_key,
  ◌≡◌, ◌≢◌, refl, ◌∙◌, arith, inl, inr, lookup-insert, All, All-append,
}
use stouter.Subscribe.Manager.{
  Manager, ProxyHandle, ServiceInfo, DesiredService, Start, listening, serve_one, serve_all,
  is_obsolete,
}
use stouter.Subscribe.Manager.Consistency.{Consistent}
use stouter.Subscribe.Manager.Entries.{insert-new}
use stouter.Subscribe.Manager.Starting.{
  Served, runs, idle, begun, serve_one-Served, added-Consistent, refresh-keys, same_port_refl,
}

abbrev pub Fitting : Map String DesiredService → Map String ProxyHandle → Type 0
Fitting desired proxies = All (λ e. is_obsolete desired e ≡ false) proxies

-- No proxy and no shown service is lost.
pub record Grows (m m' : Manager) : Type 0 where
  pub proxies : (k : String) → contains_key k m.proxies ≡ true → contains_key k m'.proxies ≡ true
  pub services :
      (n : String) → contains_key n m.service_ports ≡ true → contains_key n m'.service_ports ≡ true

-- What becomes of a desired service: it has a proxy, its name has another one, or it does not start.
pub data Outcome (starts : String → Option ℕ → Start) (m : Manager) (e : String × DesiredService)
    : Type 0 where
  proxied : contains_key e.0 m.proxies ≡ true → Outcome starts m e
  name_taken : contains_key e.1.name m.service_ports ≡ true → Outcome starts m e
  not_started : ((p : ℕ) → starts e.0 e.1.local_port ≢ listening p) → Outcome starts m e

later-Outcome :
    (starts : String → Option ℕ → Start) (m m' : Manager) (e : String × DesiredService)
    → Grows m m'
    → Outcome starts m e
    → Outcome starts m' e
later-Outcome starts m m' e g (proxied h) = proxied (g.proxies e.0 h)
later-Outcome starts m m' e g (name_taken h) = name_taken (g.services e.1.name h)
later-Outcome starts m m' e g (not_started h) = not_started h

pub record Step (starts : String → Option ℕ → Start) (desired : Map String DesiredService)
    (es : Map String DesiredService) (m m' : Manager) : Type 0 where
  pub consistent : Consistent m'
  pub fitting : Fitting desired m'.proxies
  pub grows : Grows m m'
  pub outcomes : All (Outcome starts m') es

fits-new :
    (desired : Map String DesiredService) (key : String) (d : DesiredService)
    → lookup key desired ≡ some d
    → is_obsolete desired (key, record { service_name = d.name; requested_port = d.local_port })
      ≡ false
unfolding is_obsolete
fits-new desired key d e = rw (is_obsolete, e, same_port_refl d.local_port) refl

one-Step :
    (starts : String → Option ℕ → Start) (desired : Map String DesiredService) (key : String)
    (d : DesiredService) (m m' : Manager)
    → lookup key desired ≡ some d
    → Consistent m
    → Fitting desired m.proxies
    → Served starts key d m m'
    → Step starts desired ((key, d) ∷ []) m m'
one-Step starts desired key d m m' wanted c f (runs {h = h} e p s) = record {
  consistent = record {
    keys_distinct = rw p c.keys_distinct;
    services_distinct = rw p c.services_distinct;
    shown = λ n. rw (p, s) (refresh-keys h.service_name d m.service_ports n ∙ c.shown n);
  };
  fitting = rw p f;
  grows = record {
    proxies = λ k q. rw p q;
    services = λ n q. rw s (refresh-keys h.service_name d m.service_ports n ∙ q);
  };
  outcomes = (proxied (let t : contains_key key m.proxies ≡ true = ground arith in rw p t), tt);
}
one-Step starts desired key d m m' wanted c f (idle p s why) = record {
  consistent = record {
    keys_distinct = rw p c.keys_distinct;
    services_distinct = rw p c.services_distinct;
    shown = λ n. rw (p, s) (c.shown n);
  };
  fitting = rw p f;
  grows = record { proxies = λ k q. rw p q; services = λ n q. rw s q };
  outcomes = (elim why [ inl t ↦ name_taken (rw s t) | inr t ↦ not_started t ], tt);
}
one-Step starts desired key d m m' wanted c f (begun port absent fresh p s) =
    let h : ProxyHandle = record { service_name = d.name; requested_port = d.local_port } in
    let info : ServiceInfo = record { port = port; domains = d.domains; meta = d.meta } in
    record {
      consistent = added-Consistent m m' key h info c absent fresh p s;
      fitting =
          rw (p, insert-new key h m.proxies absent)
            (All-append (λ e. is_obsolete desired e ≡ false) m.proxies ((key, h) ∷ []) f
              (fits-new desired key d wanted, tt));
      grows = record {
        proxies = λ k q. rw p (ground (arith, lookup-insert key k h m.proxies));
        services = λ n q. rw s (ground (arith, lookup-insert d.name n info m.service_ports));
      };
      outcomes = (proxied (rw p (ground (arith, lookup-insert key key h m.proxies))), tt);
    }

pub serve_all-Step :
    (starts : String → Option ℕ → Start) (desired es : Map String DesiredService) (m : Manager)
    → All (λ e. lookup e.0 desired ≡ some e.1) es
    → Consistent m
    → Fitting desired m.proxies
    → Step starts desired es m (serve_all starts es m)
unfolding serve_all
serve_all-Step starts desired [] m wanted c f = record {
  consistent = c;
  fitting = f;
  grows = record { proxies = λ k q. q; services = λ n q. q };
  outcomes = tt;
}
serve_all-Step starts desired ((key, d) ∷ es) m wanted c f =
    let m1 = serve_one starts (key, d) m in
    let one = one-Step starts desired key d m m1 wanted.0 c f (serve_one-Served starts key d m) in
    let rest = serve_all-Step starts desired es m1 wanted.1 one.consistent one.fitting in
    record {
      consistent = rest.consistent;
      fitting = rest.fitting;
      grows = record {
        proxies = λ k q. rest.grows.proxies k (one.grows.proxies k q);
        services = λ n q. rest.grows.services n (one.grows.services n q);
      };
      outcomes = (
        later-Outcome starts m1 (serve_all starts es m1) (key, d) rest.grows one.outcomes.0,
        rest.outcomes,
      );
    }
