-- ===== src/Command/Segments.antt =====
-- The topic of a validated command.
use pipe_bolt.Prelude.{
  >>=-eq-ok, List, Result, String, [], ap, false, is_empty, length, ltb, ltb→le, map_err, ok,
  ok-injective, or-eq-false, refl, reject_if, reject_if-eq-ok, subst, sym, ℕ, ◌++◌, ◌||◌, ◌∙◌, ◌∷◌,
  ◌≡◌, ◌≤◌,
}
use pipe_bolt.Text.{Str, byte_len, codes, contains, split, trim}
use pipe_bolt.Text.Levels.{split-append, split_of_not_contains}
use pipe_bolt.Json.{JsonLib}
use pipe_bolt.Domain.Config.Filter.{hash, plus, slash}
use pipe_bolt.Message.{validate_topic_name}
use pipe_bolt.Command.{
  CommandRequest, ValidatedCommand, command_topic, has_topic_syntax, invalid_command_topic,
  max_command_name_len, max_command_payload_bytes, max_device_id_len, normalize_segment,
  payload_bytes, validate_command,
}

abbrev pub IsSegment : Str → ℕ → Type 0
IsSegment s limit =
    (is_empty s ≡ false)
    × (byte_len s ≤ limit)
    × (contains slash s ≡ false)
    × (contains plus s ≡ false)
    × (contains hash s ≡ false)

normalize_segment-IsSegment :
    (name : String) (value : Str) (limit : ℕ) {s : Str}
    → normalize_segment name value limit ≡ ok s
    → (s ≡ trim value) × IsSegment s limit
unfolding normalize_segment
normalize_segment-IsSegment name value limit h =
    let (u1, filled, h) = >>=-eq-ok (reject_if (is_empty (trim value)) _) _ h in
    let (u2, short, h) = >>=-eq-ok (reject_if (ltb limit (byte_len (trim value))) _) _ h in
    let (u3, clean, h) =
      >>=-eq-ok (reject_if (has_topic_syntax (trim value) || contains 0 (trim value)) _) _ h in
    let same = sym (ok-injective h) in
    let (syntax, zero_free) = or-eq-false _ _ (reject_if-eq-ok _ _ clean) in
    let (slashes, wild) = or-eq-false _ _ syntax in
    (
      same,
      rw same (
        reject_if-eq-ok _ _ filled,
        ltb→le _ _ (reject_if-eq-ok _ _ short),
        slashes,
        (or-eq-false _ _ wild).0,
        (or-eq-false _ _ wild).1,
      ),
    )

-- A topic that is put together out of two segments falls into the four parts again.
split-command_topic :
    (device command : Str)
    → contains slash device ≡ false
    → contains slash command ≡ false
    → split slash (command_topic device command)
      ≡ codes "devices" ∷ device ∷ codes "command" ∷ command ∷ []
unfolding contains
split-command_topic device command p q =
    split-append slash (codes "devices") (device ++ (slash ∷ codes "command" ++ (slash ∷ command)))
      refl
    ∙ ap (λ l. codes "devices" ∷ l)
        (split-append slash device (codes "command" ++ (slash ∷ command)) p
          ∙ ap (λ l. device ∷ l)
              (split-append slash (codes "command") command refl
                ∙ ap (λ l. codes "command" ∷ l) (split_of_not_contains slash command q)))

accepted :
    (given name device command : Str) (payload : List ℕ)
    → (device ≡ trim given) × IsSegment device 128
    → (command ≡ trim name) × IsSegment command 128
    → length payload ≤ 65536
    → (device ≡ trim given)
      × (command ≡ trim name)
      × IsSegment device 128
      × IsSegment command 128
      × (split slash (command_topic device command)
          ≡ codes "devices" ∷ device ∷ codes "command" ∷ command ∷ [])
      × (length payload ≤ 65536)
accepted given name device command payload (d, p) (c, q) small =
    (d, c, p, q, split-command_topic device command p.2 q.2, small)

module _ (J : JsonLib) (decode_base64 : Str → Result Str (List ℕ)) where
  open J use {Number}

  -- A command that is accepted has the trimmed device and name of the request, neither of them
  -- empty or of more than 128 bytes; its topic has exactly the four levels `devices`, the device,
  -- `command` and the name, without wildcards in the latter, and its payload has at most 65536 bytes.
  pub validate_command-IsSegment :
      (request : CommandRequest Number) (v : ValidatedCommand)
      → validate_command J decode_base64 request ≡ ok v
      → (v.device ≡ trim request.device)
        × (v.command ≡ trim request.command)
        × IsSegment v.device 128
        × IsSegment v.command 128
        × (split slash v.topic ≡ codes "devices" ∷ v.device ∷ codes "command" ∷ v.command ∷ [])
        × (length v.payload ≤ 65536)
  unfolding validate_command
  validate_command-IsSegment request v h =
      let (device, d, h) =
        >>=-eq-ok (normalize_segment "device" request.device max_device_id_len) _ h in
      let (command, c, h) =
        >>=-eq-ok (normalize_segment "command" request.command max_command_name_len) _ h in
      let (payload, b, h) = >>=-eq-ok (payload_bytes J decode_base64 request.payload) _ h in
      let (u1, small, h) =
        >>=-eq-ok (reject_if (ltb max_command_payload_bytes (length payload)) _) _ h in
      let (u2, named, h) =
        >>=-eq-ok
          (map_err invalid_command_topic (validate_topic_name (command_topic device command))) _
          h in
      subst
        (λ v.
          (v.device ≡ trim request.device)
          × (v.command ≡ trim request.command)
          × IsSegment v.device 128
          × IsSegment v.command 128
          × (split slash v.topic ≡ codes "devices" ∷ v.device ∷ codes "command" ∷ v.command ∷ [])
          × (length v.payload ≤ 65536))
        (ok-injective h)
        (accepted request.device request.command device command payload
          (normalize_segment-IsSegment "device" request.device 128 d)
          (normalize_segment-IsSegment "command" request.command 128 c)
          (ltb→le _ _ (reject_if-eq-ok _ _ small)))
