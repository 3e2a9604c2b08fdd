-- ===== src/Slave/Connecting.antt =====
-- How the slave reaches the master: the address that it connects to, and the update port that it learns.
use jpgsync.Common.{
  ℕ, ◌+◌, ◌<◌, ◌≡◌, refl, ◌∙◌, Bool, true, false, List, [], ◌∷◌, ◌++◌, some, All, length, arith,
  append_assoc,
}
use jpgsync.Host.{Host, network16, IsU16}
use jpgsync.Protocol.{Socket, returned, threw}
use jpgsync.Protocol.Stream.{Stream}
use jpgsync.Protocol.Messages.{Gives, read_exactly_lem, write_exactly_lem}
use jpgsync.Peer.Connect.{byte_of, differ}
use jpgsync.Peer.Connect.Pairing.{init_sync_connection_lem}
use jpgsync.Slave.{Kernel, AddrInfo, Slave, connect_from, connect_any, greeted, resolve}
use jpgsync.Master.{Master, greet}
use jpgsync.Master

module _ {A : Type 0} (kernel : Kernel A) where
  abbrev pub Refused : A → Type 0
  Refused a = (fd : ℕ) → kernel.connect fd a ≡ false

  -- socket(2) has always one more descriptor.
  abbrev pub HasSockets : Type 0
  HasSockets = (opened : List ℕ) (a : A) → (fd : ℕ) × (kernel.socket opened a ≡ some fd)

  connect_from_first :
      HasSockets
      → (refused : Bool) (xs ys : List A) (y : A) (opened : List ℕ) → All Refused xs
      → ((fd : ℕ) → kernel.connect fd y ≡ true)
      → (fd : ℕ) × (more : List ℕ) × (connect_from kernel refused (xs ++ y ∷ ys) opened
          ≡ (returned (some fd), fd ∷ more))
        × (length more ≡ length xs + length opened)
  unfolding connect_from
  connect_from_first sockets refused [] ys y opened r c =
      let (fd, e) = sockets opened y in (fd, opened, rw (connect_from, e, c fd), omega arith)
  connect_from_first sockets refused (x ∷ xs) ys y opened (rx, rs) c =
      let (fd, e) = sockets opened x in
      let (fd', more, eq, len) = connect_from_first sockets true xs ys y (fd ∷ opened) rs c in
      (fd', more, rw (connect_from, e, rx fd) eq, omega arith)

  connect_from-Refused :
      HasSockets
      → (xs : List A) (opened : List ℕ) → All Refused xs
      → (more : List ℕ) × (connect_from kernel true xs opened ≡ (threw, more))
        × (length more ≡ length xs + length opened)
  unfolding connect_from
  connect_from-Refused sockets [] opened r = (opened, refl, omega arith)
  connect_from-Refused sockets (x ∷ xs) opened (rx, rs) =
      let (fd, e) = sockets opened x in
      let (more, eq, len) = connect_from-Refused sockets xs (fd ∷ opened) rs in
      (more, rw (connect_from, e, rx fd) eq, omega arith)

  -- If socket(2) never fails, `Connect` connects to the first of the addresses that does not refuse,
  -- and leaves open a socket more for each address before it.
  pub connect_any_first :
      HasSockets
      → (ai : AddrInfo A) (xs ys : List A) (y : A) (opened : List ℕ)
      → ai.resolved_asi ≡ xs ++ y ∷ ys
      → All Refused xs
      → ((fd : ℕ) → kernel.connect fd y ≡ true)
      → (fd : ℕ) × (more : List ℕ) × (connect_any kernel ai opened
          ≡ (returned (some fd), fd ∷ more))
        × (length more ≡ length xs + length opened)
  unfolding connect_any
  connect_any_first sockets ai xs ys y opened e r c =
      rw e (connect_from_first sockets false xs ys y opened r c)

  -- If socket(2) never fails and every address refuses, and there is one, `Connect` throws, and
  -- leaves open a socket more for each of them.
  pub connect_any-Refused :
      HasSockets
      → (ai : AddrInfo A) (opened : List ℕ) → 0 < length ai.resolved_asi
      → All Refused ai.resolved_asi
      → (more : List ℕ) × (connect_any kernel ai opened ≡ (threw, more))
        × (length more ≡ length ai.resolved_asi + length opened)
  unfolding connect_any connect_from
  connect_any-Refused sockets ai opened n r = go ai.resolved_asi n r
    where
      go :
          (xs : List A)
          → 0 < length xs
          → All Refused xs
          → (more : List ℕ) × (connect_from kernel false xs opened ≡ (threw, more))
            × (length more ≡ length xs + length opened)
      go [] n r = absurd (omega arith)
      go (x ∷ xs) n (rx, rs) =
          let (fd, e) = sockets opened x in
          let (more, eq, len) = connect_from-Refused sockets xs (fd ∷ opened) rs in
          (more, rw (connect_from, e, rx fd) eq, omega arith)

  module _ {S : Type 0} {sock : Socket S} (stream : Stream sock) (host : Host) where
    open stream use {pending, sent}

    -- What the master writes when it has accepted a sync connection.
    pub greet_lem :
        {N : Type 0} (listener : Master.Kernel N) (m : Master) (fd : S)
        (download peer_download : Bool) (rest : List ℕ)
        → IsU16 m.update_port
        → pending fd ≡ byte_of peer_download ∷ rest
        → Gives stream
            (greet host listener sock m fd download)
            (λ fd'. (differ peer_download download, fd'))
            rest
            (sent fd ++ (network16 m.update_port ++ byte_of download ∷ []))
    unfolding greet
    greet_lem listener m fd download peer rest u e =
        let w = write_exactly_lem stream fd (host.store16 (host.htons m.update_port)) in
        let i = init_sync_connection_lem stream w.fd' download peer rest (w.left ∙ e) in
        record {
          fd' = i.fd';
          result = rw (w.result, i.result);
          left = i.left;
          wrote =
              i.wrote
              ∙ rw (w.wrote, host.store16-htons m.update_port u)
                  (append_assoc (sent fd) (network16 m.update_port) (byte_of download ∷ []));
        }

    -- What the slave makes of that: it resolves the update port of the master.
    pub greeted_lem :
        (slave : Slave kernel) (fd : S) (port : ℕ) (download peer_download : Bool) (rest : List ℕ)
        (found : List A)
        → IsU16 port
        → kernel.getaddrinfo slave.update_addr_info.host port slave.update_addr_info.protocol
          ≡ some found
        → pending fd ≡ network16 port ++ byte_of peer_download ∷ rest
        → Gives stream
            (greeted kernel host sock slave fd download)
            (λ fd'. (
              true,
              record slave {
                update_addr_info = record slave.update_addr_info {
                  port = port;
                  resolved_asi = found;
                };
              },
              fd',
            ))
            rest
            (sent fd ++ byte_of download ∷ [])
    unfolding greeted resolve
    greeted_lem slave fd port download peer rest found u g e =
        let r = read_exactly_lem stream fd (network16 port) (byte_of peer ∷ rest) e in
        let i = init_sync_connection_lem stream r.fd' download peer rest r.left in
        record {
          fd' = i.fd';
          result = rw (r.result, host.ntohs-load16 port u, g, i.result);
          left = i.left;
          wrote = i.wrote ∙ rw r.wrote;
        }

    -- On a sync connection on which each side reads what the other writes, if the update port of the master
    -- fits 16 bits, and getaddrinfo finds addresses for the host of the slave's update address, that port
    -- and the protocol of the update connection, both calls return, and the slave's update address has
    -- that port and those addresses; its host and protocol stay.
    pub greeted-greet :
        {N : Type 0} (listener : Master.Kernel N) (m : Master) (slave : Slave kernel) (a b : S)
        (downloads slave_downloads : Bool) (found : List A)
        → IsU16 m.update_port
        → kernel.getaddrinfo slave.update_addr_info.host m.update_port
            slave.update_addr_info.protocol
          ≡ some found
        → pending a ≡ byte_of slave_downloads ∷ []
        → pending b ≡ network16 m.update_port ++ byte_of downloads ∷ []
        → Gives stream
            (greet host listener sock m a downloads)
            (λ a'. (differ slave_downloads downloads, a'))
            []
            (sent a ++ (network16 m.update_port ++ byte_of downloads ∷ []))
          × Gives stream
              (greeted kernel host sock slave b slave_downloads)
              (λ b'. (
                true,
                record slave {
                  update_addr_info = record slave.update_addr_info {
                    port = m.update_port;
                    resolved_asi = found;
                  };
                },
                b',
              ))
              []
              (sent b ++ byte_of slave_downloads ∷ [])
    greeted-greet listener m slave a b d sd found u g ea eb = (
      greet_lem listener m a d sd [] u ea,
      greeted_lem slave b m.update_port sd d [] found u g eb,
    )
