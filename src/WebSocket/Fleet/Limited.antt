-- ===== src/WebSocket/Fleet/Limited.antt =====
-- What src/fastcgi/src/fcgicc.cc does for all connections keeps each of them within the limits.
use uce.Base.{
  ℕ, suc, ◌+◌, ◌≤◌, ◌<◌, Bool, true, false, List, [], ◌∷◌, ◌++◌, ◌≡◌, refl, ◌⊎◌, inl, inr, Bytes,
  length, ltb, equal, equal_iff, not, ◌&&◌, if◌then◌else◌, arith, All, Bool-cases,
}
use uce.WebSocket.Connection.Invariant.{
  WellFormed, close_websocket_connection-WellFormed, queue_websocket_frame-WellFormed,
  queue_websocket_payload-WellFormed,
}
use uce.WebSocket.Connection.{
  Limits, Connection, queue_websocket_frame, fail_websocket_connection, close_websocket_connection,
}
use uce.WebSocket.Frame.Encode.{wire_frame, ws_encode_frame-wire_frame}
use uce.WebSocket.Frame.{ws_encode_frame}
use uce.WebSocket.Fleet.{
  Client, has_id, websocket_send_to, broadcast_frame, websocket_broadcast, websocket_close,
}

module _ (limits : Limits) where
  abbrev pub AllWellFormed : List Client → Type 0
  AllWellFormed = All (λ client. WellFormed limits client.1)

  AllWellFormed-if :
      {A : Type 0} (b : Bool) (p q : List Client × A)
      → AllWellFormed p.0
      → AllWellFormed q.0
      → AllWellFormed (if b then p else q).0
  AllWellFormed-if true p q hp hq = hp
  AllWellFormed-if false p q hp hq = hq

  pub websocket_send_to-AllWellFormed :
      (connection_id message : Bytes) (binary : Bool) (clients : List Client)
      → AllWellFormed clients
      → AllWellFormed (websocket_send_to limits connection_id message binary clients).0
  unfolding websocket_send_to
  websocket_send_to-AllWellFormed connection_id message binary [] h = tt
  websocket_send_to-AllWellFormed connection_id message binary (client ∷ clients) (w, h) =
      AllWellFormed-if (has_id connection_id client) _ _
        (queue_websocket_payload-WellFormed limits client.1 message binary w, h)
        (w, websocket_send_to-AllWellFormed connection_id message binary clients h)

  pub websocket_close-AllWellFormed :
      (connection_id : Bytes) (status_code : ℕ) (reason : Bytes) (clients : List Client)
      → AllWellFormed clients
      → AllWellFormed (websocket_close connection_id status_code reason clients).0
  unfolding websocket_close
  websocket_close-AllWellFormed connection_id status_code reason [] h = tt
  websocket_close-AllWellFormed connection_id status_code reason (client ∷ clients) (w, h) =
      AllWellFormed-if (has_id connection_id client) _ _
        (close_websocket_connection-WellFormed limits client.1 status_code reason w, h)
        (w, websocket_close-AllWellFormed connection_id status_code reason clients h)

  -- A WebSocket of the scope, where the empty scope is that of all.
  abbrev pub IsMember : Bytes → Client → Type 0
  IsMember scope client = (client.0 ≡ true) × ((scope ≡ []) ⊎ (client.1.websocket_scope ≡ scope))

  -- What a client is after the broadcast of a frame, and what it adds to the count. A WebSocket of the
  -- scope gets the frame behind its output and counts, or it has no room for it, is to be closed and does
  -- not count. Any other client stays as it is.
  abbrev pub IsServed : Bytes → Bytes → Client → Client → ℕ → Type 0
  IsServed scope frame client after n =
      (IsMember scope client
        × (length client.1.output_buffer + length frame ≤ limits.max_websocket_output_bytes)
        × (after ≡ (client.0, record client.1 { output_buffer = client.1.output_buffer ++ frame }))
        × (n ≡ 1))
      ⊎ (IsMember scope client
          × (limits.max_websocket_output_bytes < length client.1.output_buffer + length frame)
          × (after.0 ≡ true)
          × (after.1.close_socket ≡ true)
          × (n ≡ 0))
      ⊎ ((IsMember scope client → ⊥) × (after ≡ client) × (n ≡ 0))

  unfoldable pub Delivered : Bytes → Bytes → List Client → List Client → ℕ → Type 0
  Delivered scope frame [] [] count = count ≡ 0
  Delivered scope frame [] (after ∷ afters) count = ⊥
  Delivered scope frame (client ∷ clients) [] count = ⊥
  Delivered scope frame (client ∷ clients) (after ∷ afters) count =
      (n : ℕ) × (later : ℕ) × IsServed scope frame client after n
      × Delivered scope frame clients afters later
      × (count ≡ n + later)

  -- Clients that are within the limits. A message that is too long reaches none of them; any other is
  -- delivered as one frame of the protocol without a mask, of the text or of the binary kind.
  abbrev pub Sent : Bytes → Bytes → Bool → List Client → List Client × ℕ → Type 0
  Sent scope message binary clients (after, count) =
      AllWellFormed after
      × (((limits.max_websocket_message_bytes < length message) × (after ≡ clients) × (count ≡ 0))
          ⊎ ((length message ≤ limits.max_websocket_message_bytes)
              × Delivered scope (wire_frame false [] message (if binary then 2 else 1) true) clients
                  after count))

  -- The test of a WebSocket's scope.
  IsMember-equal :
      (scope : Bytes) (c : Connection)
      → (((not (equal scope []) && not (equal c.websocket_scope scope)) ≡ false)
          × IsMember scope (true, c))
        ⊎ (((not (equal scope []) && not (equal c.websocket_scope scope)) ≡ true)
            × (IsMember scope (true, c) → ⊥))
  IsMember-equal scope c = elim (Bool-cases (equal scope [])) [
    | inl e ↦ inl (rw e refl, (refl, inl ((equal_iff scope []).0 e)))
    | inr e ↦ elim (Bool-cases (equal c.websocket_scope scope)) [
      | inl d ↦ inl (rw (e, d) refl, (refl, inr ((equal_iff c.websocket_scope scope).0 d)))
      | inr d ↦ inr (rw (e, d) refl, λ m. differ e d m.1)
    ]
  ]
    where
      differ :
          equal scope [] ≡ false
          → equal c.websocket_scope scope ≡ false
          → (scope ≡ []) ⊎ (c.websocket_scope ≡ scope)
          → ⊥
      differ e d (inl h) = cc (e, (equal_iff scope []).1 h)
      differ e d (inr h) = cc (d, (equal_iff c.websocket_scope scope).1 h)

  queue_websocket_frame-IsServed :
      (scope frame : Bytes) (client : Client)
      → IsMember scope client
      → IsServed scope frame client
          (client.0, (queue_websocket_frame limits client.1 frame).0)
          (if (queue_websocket_frame limits client.1 frame).1 then 1 else 0)
  unfolding queue_websocket_frame fail_websocket_connection close_websocket_connection
  queue_websocket_frame-IsServed scope frame client m =
      elim (Bool-cases
        (ltb limits.max_websocket_output_bytes (length client.1.output_buffer + length frame))) [
          | inl e ↦ rw e (inr (inl (m, ground arith, m.0, refl, refl)))
          | inr e ↦ rw e (inl (m, ground arith, refl, refl))
        ]

  broadcast_frame-Delivered :
      (scope frame : Bytes) (clients : List Client)
      → let (after, count) = broadcast_frame limits scope frame clients in
        Delivered scope frame clients after count
  unfolding broadcast_frame Delivered
  broadcast_frame-Delivered scope frame [] = refl
  broadcast_frame-Delivered scope frame ((false, c) ∷ clients) = (
    0,
    (broadcast_frame limits scope frame clients).1,
    inr (inr (λ m. cc m.0, refl, refl)),
    broadcast_frame-Delivered scope frame clients,
    omega arith,
  )
  broadcast_frame-Delivered scope frame ((true, c) ∷ clients) =
      let rest = broadcast_frame-Delivered scope frame clients in
      let later = (broadcast_frame limits scope frame clients).1 in
      elim (IsMember-equal scope c) [
        | inl (b, m) ↦
            rw (broadcast_frame, b, Delivered)
              (
                _,
                later,
                queue_websocket_frame-IsServed scope frame (true, c) m,
                rest,
                counted (queue_websocket_frame limits c frame).1 later,
              )
        | inr (b, other) ↦
            rw (broadcast_frame, b, Delivered)
              (0, later, inr (inr (other, refl, refl)), rest, omega arith)
      ]
    where
      counted :
          (sent : Bool) (later : ℕ)
          → (if sent then suc later else later) ≡ (if sent then 1 else 0) + later
      counted true later = omega arith
      counted false later = omega arith

  encoded :
      (binary : Bool) (message : Bytes)
      → ws_encode_frame message (if binary then 2 else 1) true
        ≡ wire_frame false [] message (if binary then 2 else 1) true
  encoded true message = ws_encode_frame-wire_frame message 2 true
  encoded false message = ws_encode_frame-wire_frame message 1 true

  broadcast_frame-AllWellFormed :
      (scope frame : Bytes) (clients : List Client)
      → AllWellFormed clients
      → AllWellFormed (broadcast_frame limits scope frame clients).0
  unfolding broadcast_frame
  broadcast_frame-AllWellFormed scope frame [] h = tt
  broadcast_frame-AllWellFormed scope frame (client ∷ clients) (w, h) =
      let rest = broadcast_frame-AllWellFormed scope frame clients h in
      AllWellFormed-if (not client.0) _ _ (w, rest)
        (AllWellFormed-if (not (equal scope []) && not (equal client.1.websocket_scope scope)) _ _
          (w, rest) (queue_websocket_frame-WellFormed limits client.1 frame w, rest))

  -- A message for a scope keeps every connection of the server within the limits. A message within the
  -- limit is put as one unmasked frame behind the output of exactly the WebSockets of the scope, the empty scope
  -- being that of all, as far as the frame fits their queue; one whose queue it overflows is to be closed;
  -- all other connections stay as they are, and the number returned is that of the connections that got
  -- the frame. A longer message changes nothing and gives 0.
  pub websocket_broadcast-Sent :
      (scope message : Bytes) (binary : Bool) (clients : List Client)
      → AllWellFormed clients
      → Sent scope message binary clients (websocket_broadcast limits scope message binary clients)
  unfolding websocket_broadcast
  websocket_broadcast-Sent scope message binary clients h =
      elim (Bool-cases (ltb limits.max_websocket_message_bytes (length message))) [
        | inl e ↦ rw e (h, inl (ground arith, refl, refl))
        | inr e ↦ rw e (
          broadcast_frame-AllWellFormed scope _ clients h,
          inr (
            ground arith,
            rw (← encoded binary message) (broadcast_frame-Delivered scope _ clients),
          ),
        )
      ]
