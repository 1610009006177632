-- ===== src/Cli/Hosts/Started.antt =====
-- `ord start` of host/src/main.rs on one machine, and `ord hosts` on another.
use ord.Prelude.{
  ℕ, ◌*◌, ◌≤◌, ◌≡◌, sym, ap, ◌∙◌, List, [], ◌∷◌, ◌++◌, Bool, true, if-true, Option, some, ltb,
  length, All,
}
use Prim.Native.String.{String}
use ord.Config.{Config, load_or_default}
use ord.Transport.Discovery.{DiscoveryBeacon, Datagram, Event, start, discovery_run, made}
use ord.Daemon.Services.{HostDaemon, new_daemon, broadcasts}
use ord.Cli
use ord.Cli.{Action, run_daemon, start_config, main}
use ord.Cli.Hosts.{contains, key, hosts_port}
use ord.Cli.Hosts.Found.{printed_by}
use ord.Cli.Hosts.Lan.{arrivals, nth, IsReadBack, hosts-finds}

module _ {F : Type 0} (one : F) (from_str : String → Option (Config F))
    (to_vec : DiscoveryBeacon → Option (List ℕ))
    (from_slice : List ℕ → Option DiscoveryBeacon) where
  -- What the daemon that a command runs broadcasts; the other commands broadcast nothing.
  abbrev pub broadcast_by : Action F → List Event → List Datagram
  broadcast_by (run_daemon config forced) es = broadcasts to_vec (new_daemon config forced) es
  broadcast_by _ es = []

  broadcasts-on :
      (d : HostDaemon F) (es : List Event)
      → d.config.server.enable_discovery ≡ true
      → broadcasts to_vec d es
        ≡ (discovery_run to_vec
            (made d.config.server.discovery_port d.config.server.port)
            (start ∷ es)).datagrams
  unfolding broadcasts
  broadcasts-on d es on =
      if-true d.config.server.enable_discovery
        (discovery_run to_vec (made d.config.server.discovery_port d.config.server.port)
          (start ∷ es)).datagrams
        [] on

  -- A daemon that is started with `--port port`, by a machine at `ip` whose configuration has discovery
  -- on and leaves its port at 9091, is printed by `hosts` on another machine as `ip:port` once one of
  -- its datagrams, of at most 4096 bytes, arrives there in time, where serde_json reads back what it
  -- prints.
  pub start-found :
      (exists : Bool) (content : Option String) (port : ℕ) (bind encoder : String) (forced : Bool)
      (bitrate : ℕ) (es : List Event) (ip : String) (timeout elapsed n : ℕ) (g : Datagram)
      (before after : List (ℕ × ℕ))
      → (load_or_default one exists content from_str).server.enable_discovery ≡ true
      → (load_or_default one exists content from_str).server.discovery_port ≡ hosts_port
      → IsReadBack to_vec from_slice port (start ∷ es) ip
      → nth
          (broadcast_by
            (main one from_str (some (Cli.start port bind forced encoder bitrate)) exists content)
            es)
          n
        ≡ some g
      → length g.payload ≤ 4096
      → All (λ (t : ℕ × ℕ). ltb t.0 (timeout * 1000000000) ≡ true) before
      → ltb elapsed (timeout * 1000000000) ≡ true
      → contains
          (printed_by from_slice timeout (
            arrivals ip
              (broadcast_by
                (main one from_str
                  (some (Cli.start port bind forced encoder bitrate))
                  exists
                  content)
                es)
              (before ++ (elapsed, n) ∷ after)))
          (key ip port)
        ≡ true
  unfolding main
  start-found exists content port bind encoder forced bitrate es ip timeout elapsed n g before after
        on at_port law sent short early now =
      let c =
        start_config port bind encoder bitrate (load_or_default one exists content from_str) in
      let same : broadcasts to_vec (new_daemon c forced) es
          ≡ (discovery_run to_vec (made hosts_port port) (start ∷ es)).datagrams =
        broadcasts-on (new_daemon c forced) es on
        ∙ ap (λ p. (discovery_run to_vec (made p port) (start ∷ es)).datagrams) at_port in
      ap
        (λ gs.
          contains (printed_by from_slice timeout (arrivals ip gs (before ++ (elapsed, n) ∷ after)))
            (key ip port))
        same
      ∙ hosts-finds to_vec from_slice port (start ∷ es) ip law timeout elapsed n g before after
          (ap (λ gs. nth gs n) (sym same) ∙ sent) short early now
