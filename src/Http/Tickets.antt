-- ===== src/Http/Tickets.antt =====
-- tickets.go: the tickets that open a WebSocket. Times are in nanoseconds; what crypto/rand yields is an
-- argument, the token encoded.
use opendeploy.Common.{
  ℕ, ◌+◌, ◌*◌, ◌^◌, Bool, false, Option, none, some, [], ◌∷◌, String, not, ltb, if◌then◌else◌,
}
use opendeploy.Common.Keyed.{Keyed, lookup, remove, insert}

abbrev pub websocket_ticket_ttl : ℕ
websocket_ticket_ttl = 30 * 10 ^ 9

pub record WebsocketTicket : Type 0 where
  pub user_id : String
  pub server_id : String
  pub expires_at : ℕ

abbrev pub TicketStore : Type 0
TicketStore = Keyed WebsocketTicket

-- ticket.expiresAt.After(now)
abbrev pub is_live : ℕ → WebsocketTicket → Bool
is_live now t = ltb now t.expires_at

-- the loop of Issue that forgets the expired tickets
unfoldable pub sweep_tickets : ℕ → TicketStore → TicketStore
sweep_tickets now [] = []
sweep_tickets now ((k, t) ∷ s) =
    let rest = sweep_tickets now s in if not (is_live now t) then rest else (k, t) ∷ rest

-- Issue: nothing changes if there are no random bytes
unfoldable pub issue :
    Option String → String → String → ℕ → TicketStore → Option (String × ℕ) × TicketStore
issue none user server now s = (none, s)
issue (some token) user server now s =
    let expires = now + websocket_ticket_ttl in
    let ticket : WebsocketTicket = record {
      user_id = user;
      server_id = server;
      expires_at = expires;
    } in
    (some (token, expires), insert token ticket (sweep_tickets now s))

-- the zero ticket has no server
abbrev pub admitted : ℕ → Option WebsocketTicket → String × Bool
admitted now none = ("", false)
admitted now (some t) = (t.server_id, is_live now t)

-- Consume
unfoldable pub consume : String → ℕ → TicketStore → (String × Bool) × TicketStore
consume token now s = (admitted now (lookup token s), remove token s)
