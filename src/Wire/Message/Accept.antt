-- ===== src/Wire/Message/Accept.antt =====
-- What the envelope accepts.
use veredus.Base.{
  ℕ, ◌+◌, ◌*◌, ◌≡◌, refl, [], ◌∷◌, length, arith, ◌==◌, if◌then◌else◌, ap, ◌∙◌, sym, Bool-cases,
  inl, inr,
}
use veredus.Base.Result.{Result, ok, err, ◌>>=◌}
use veredus.Fault.{ParseError}
use veredus.Text.{Bytes}
use veredus.Wire.Message.{
  WireMessage, id, from_bytes, parse, syn, syn_ack, ack, authenticate, authenticate_result, chat,
  pre_game_status, reset_pregame_status, game_settings, map_player_id_to_slot, player_slots,
  gamestate_request, gamestate_response, gamestate_chunk, gamestate_chunk_ack, join, joined, kicked,
  last_seen, lagging_clients, players_loading, player_pause, loaded_game, start_settings,
  start_savegame_settings, turn_sealed, state_hash, wrong_hash_players, player_command, flare,
}
use veredus.Wire.Handshake.{
  syn_from_bytes, syn_ack_from_bytes, ack_from_bytes, authenticate_from_bytes,
  authenticate_result_from_bytes,
}
use veredus.Wire.Lobby.{
  chat_from_bytes, pre_game_status_from_bytes, game_settings_from_bytes,
  map_player_id_to_slot_from_bytes, player_slots_from_bytes, joined_from_bytes, kicked_from_bytes,
  last_seen_from_bytes, lagging_clients_from_bytes, players_loading_from_bytes,
  player_pause_from_bytes, flare_from_bytes,
}
use veredus.Wire.Match.{
  gamestate_request_from_bytes, gamestate_response_from_bytes, gamestate_chunk_from_bytes,
  gamestate_chunk_ack_from_bytes, join_from_bytes, loaded_game_from_bytes,
  start_settings_from_bytes, start_savegame_settings_from_bytes, turn_sealed_from_bytes,
  state_hash_from_bytes, wrong_hash_players_from_bytes, player_command_from_bytes,
}

ok_eq : (a b : WireMessage) → ◌≡◌ {A = Result ParseError WireMessage} (ok a) (ok b) → a ≡ b
ok_eq a b e = cc e

-- A parser whose messages all have type `n` gives a message of that type.
id-parsed :
    {A : Type 0} (n : ℕ) (r : Result ParseError A) (c : A → WireMessage) (m : WireMessage)
    → ((a : A) → id (c a) ≡ n)
    → (r >>= λ a. ok (c a)) ≡ ok m
    → id m ≡ n
id-parsed n (ok a) c m same e = ap id (sym (ok_eq (c a) m e)) ∙ same a
id-parsed n (err x) c m same e = ground (arith, e)

-- One type of the chain in `parse`.
id-chain :
    (t n : ℕ) (r rest : Result ParseError WireMessage) (m : WireMessage)
    → (r ≡ ok m → id m ≡ n)
    → (rest ≡ ok m → id m ≡ t)
    → (if t == n then r else rest) ≡ ok m
    → id m ≡ t
id-chain t n r rest m here later e = elim (Bool-cases (t == n)) [
  | inl same ↦ here (ground (arith, same, e)) ∙ sym (ground (arith, same))
  | inr other ↦ later (ground (arith, other, e))
]

id-parse : (t : ℕ) (bs : Bytes) (m : WireMessage) → parse t bs ≡ ok m → id m ≡ t
unfolding parse id
id-parse t bs m = id-chain t 1 _ _ m (id-parsed 1 (syn_from_bytes bs) syn m (λ a. refl)) (
    id-chain t 2 _ _ m (id-parsed 2 (syn_ack_from_bytes bs) syn_ack m (λ a. refl)) (
      id-chain t 3 _ _ m (id-parsed 3 (ack_from_bytes bs) ack m (λ a. refl)) (
        id-chain t 4 _ _ m (id-parsed 4 (authenticate_from_bytes bs) authenticate m (λ a. refl)) (
          id-chain t 5 _ _ m
            (id-parsed 5 (authenticate_result_from_bytes bs) authenticate_result m (λ a. refl))
            (id-chain t 6 _ _ m (id-parsed 6 (chat_from_bytes bs) chat m (λ a. refl)) (
              id-chain t 7 _ _ m
                (id-parsed 7 (pre_game_status_from_bytes bs) pre_game_status m (λ a. refl))
                (id-chain t 8 _ _ m (λ e. ap id (sym (ok_eq reset_pregame_status m e)))
                  (id-chain t 9 _ _ m
                    (id-parsed 9 (game_settings_from_bytes bs) game_settings m (λ a. refl))
                    (id-chain t 10 _ _ m
                      (id-parsed 10 (map_player_id_to_slot_from_bytes bs) map_player_id_to_slot m
                        (λ a. refl))
                      (id-chain t 11 _ _ m
                        (id-parsed 11 (player_slots_from_bytes bs) player_slots m (λ a. refl))
                        (id-chain t 12 _ _ m
                          (id-parsed 12 (gamestate_request_from_bytes bs) gamestate_request m
                            (λ a. refl))
                          (id-chain t 13 _ _ m
                            (id-parsed 13 (gamestate_response_from_bytes bs) gamestate_response m
                              (λ a. refl))
                            (id-chain t 14 _ _ m
                              (id-parsed 14 (gamestate_chunk_from_bytes bs) gamestate_chunk m
                                (λ a. refl))
                              (id-chain t 15 _ _ m
                                (id-parsed 15 (gamestate_chunk_ack_from_bytes bs)
                                  gamestate_chunk_ack m (λ a. refl))
                                (id-chain t 16 _ _ m
                                  (id-parsed 16 (join_from_bytes bs) join m (λ a. refl))
                                  (id-chain t 17 _ _ m
                                    (id-parsed 17 (joined_from_bytes bs) joined m (λ a. refl))
                                    (id-chain t 18 _ _ m
                                      (id-parsed 18 (kicked_from_bytes bs) kicked m (λ a. refl))
                                      (id-chain t 19 _ _ m
                                        (id-parsed 19 (last_seen_from_bytes bs) last_seen m
                                          (λ a. refl))
                                        (id-chain t 20 _ _ m
                                          (id-parsed 20 (lagging_clients_from_bytes bs)
                                            lagging_clients m (λ a. refl))
                                          (id-chain t 21 _ _ m
                                            (id-parsed 21 (players_loading_from_bytes bs)
                                              players_loading m (λ a. refl))
                                            (id-chain t 22 _ _ m
                                              (id-parsed 22 (player_pause_from_bytes bs)
                                                player_pause m (λ a. refl))
                                              (id-chain t 23 _ _ m
                                                (id-parsed 23 (loaded_game_from_bytes bs)
                                                  loaded_game m (λ a. refl))
                                                (id-chain t 24 _ _ m
                                                  (id-parsed 24 (start_settings_from_bytes bs)
                                                    start_settings m (λ a. refl))
                                                  (id-chain t 25 _ _ m
                                                    (id-parsed 25
                                                      (start_savegame_settings_from_bytes bs)
                                                      start_savegame_settings m (λ a. refl))
                                                    (id-chain t 26 _ _ m
                                                      (id-parsed 26 (turn_sealed_from_bytes bs)
                                                        turn_sealed m (λ a. refl))
                                                      (id-chain t 27 _ _ m
                                                        (id-parsed 27 (state_hash_from_bytes bs)
                                                          state_hash m (λ a. refl))
                                                        (id-chain t 28 _ _ m
                                                          (id-parsed 28
                                                            (wrong_hash_players_from_bytes bs)
                                                            wrong_hash_players m (λ a. refl))
                                                          (id-chain t 29 _ _ m
                                                            (id-parsed 29
                                                            (player_command_from_bytes bs)
                                                            player_command m (λ a. refl))
                                                            (id-chain t 30 _ _ m
                                                            (id-parsed 30 (flare_from_bytes bs)
                                                            flare m (λ a. refl))
                                                            (λ e.
                                                            ground
                                                            (arith, e)))))))))))))))))))))))))))))))

-- A packet that is accepted is one whole message: it has a header, the size in the header is its
-- length, and the message is of the type that its first byte names. Any other is an error.
pub from_bytes_exact :
    (bs : Bytes) (m : WireMessage)
    → from_bytes bs ≡ ok m
    → (msg_type : ℕ) × (a : ℕ) × (b : ℕ) × (rest : Bytes) × (bs ≡ msg_type ∷ a ∷ b ∷ rest)
      × (length bs ≡ a * 256 + b)
      × (id m ≡ msg_type)
unfolding from_bytes
from_bytes_exact (t ∷ a ∷ b ∷ rest) m e =
    elim (Bool-cases (length (t ∷ a ∷ b ∷ rest) == a * 256 + b)) [
      | inl same ↦
          (t, a, b, rest, refl, ground (arith, same), id-parse t rest m (ground (arith, same, e)))
      | inr other ↦ absurd (ground (arith, other, e))
    ]
from_bytes_exact (a ∷ b ∷ []) m e = absurd (ground (arith, e))
from_bytes_exact (a ∷ []) m e = absurd (ground (arith, e))
from_bytes_exact [] m e = absurd (ground (arith, e))
