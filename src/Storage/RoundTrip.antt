-- ===== src/Storage/RoundTrip.antt =====
-- Storing a project configuration and loading it gives it back.
use pipe_bolt.Prelude.{All, Option, Result, append_assoc, none, ok, refl, some, subst, ◌++◌, ◌≡◌}
use pipe_bolt.Text.{Str, codes}
use pipe_bolt.Domain.Id.{Identifier}
use pipe_bolt.Domain.Config.{
  BrokerConnectionConfig, HttpHeaderTemplate, MqttCredentials, SinkDefinition, SinkKind, database,
  webhook,
}
use pipe_bolt.Domain.Config.Validate.{new_secret}
use pipe_bolt.Domain.Project.{ProjectConfig, validate_project}
use pipe_bolt.Storage.{EncryptedSecret, SecretCipher, StorageError}
use pipe_bolt.Storage.Codec.{
  StoredBrokerConnectionConfig, StoredHttpHeaderTemplate, StoredMqttCredentials,
  StoredProjectConfig, StoredSinkDefinition, StoredSinkKind, broker_from_domain, broker_into_domain,
  broker_password_aad, credentials_from_domain, credentials_into_domain, decode, encode,
  header_from_domain, header_into_domain, kind_from_domain, kind_into_domain, optional_from_domain,
  optional_into_domain, sink_from_domain, sink_into_domain,
}
use pipe_bolt.Effects.{collect-traverse, continue-eq-ok, traverse}

-- A secret is only made by `SecretString::new`.
abbrev pub IsSecret : Str → Type 0
IsSecret s = new_secret s ≡ ok s

abbrev pub HasSecrets : Option MqttCredentials → Type 0
HasSecrets none = Unit
HasSecrets (some credentials) = IsSecret credentials.password

abbrev pub HeaderIsSecret : HttpHeaderTemplate → Type 0
HeaderIsSecret h = IsSecret h.value

abbrev pub KindHasSecrets : SinkKind → Type 0
KindHasSecrets (webhook url method headers timeout) = All HeaderIsSecret headers
KindHasSecrets (database connection_ref table) = Unit

abbrev pub BrokerHasSecrets : BrokerConnectionConfig → Type 0
BrokerHasSecrets b = HasSecrets b.credentials

abbrev pub SinkHasSecrets : SinkDefinition → Type 0
SinkHasSecrets s = KindHasSecrets s.kind

pair-eq :
    {A W : Type 0} {a b : A} {v w : W}
    → ◌≡◌ {A = Result StorageError A × W} (ok a, v) (ok b, w)
    → a ≡ b
pair-eq h = cc

module _ {W : Type 0} (c : SecretCipher W)
    (faithful : (s aad : Str) (e : EncryptedSecret) (w w' : W)
      → c.encrypt s aad w ≡ (ok e, w')
      → c.decrypt e aad ≡ ok s)
    (project_id : Identifier) where
  credentials-back :
      (broker_id : Identifier) (credentials : MqttCredentials) (stored : StoredMqttCredentials)
      (w w' : W)
      → IsSecret credentials.password
      → credentials_from_domain c project_id broker_id credentials w ≡ (ok stored, w')
      → credentials_into_domain c project_id broker_id stored ≡ ok credentials
  unfolding credentials_from_domain credentials_into_domain
  credentials-back broker_id credentials stored w w' p h =
      let (password, v, e, h') = continue-eq-ok (c.encrypt credentials.password _ w) _ h in
      subst (λ s. credentials_into_domain c project_id broker_id s ≡ ok credentials) (pair-eq h')
        (simp (faithful _ _ password w v e, p))

  optional-back :
      (broker_id : Identifier) (credentials : Option MqttCredentials)
      (stored : Option StoredMqttCredentials) (w w' : W)
      → HasSecrets credentials
      → optional_from_domain c project_id broker_id credentials w ≡ (ok stored, w')
      → optional_into_domain c project_id broker_id stored ≡ ok credentials
  unfolding optional_from_domain optional_into_domain
  optional-back broker_id none stored w w' p h =
      subst (λ s. optional_into_domain c project_id broker_id s ≡ ok none) (pair-eq h) refl
  optional-back broker_id (some credentials) stored w w' p h =
      let (s, v, e, h') =
        continue-eq-ok (credentials_from_domain c project_id broker_id credentials w) _ h in
      subst (λ s. optional_into_domain c project_id broker_id s ≡ ok (some credentials))
        (pair-eq h') (rw (credentials-back broker_id credentials s w v p e) refl)

  broker-back :
      (b : BrokerConnectionConfig) (stored : StoredBrokerConnectionConfig) (w w' : W)
      → BrokerHasSecrets b
      → broker_from_domain c project_id b w ≡ (ok stored, w')
      → broker_into_domain c project_id stored ≡ ok b
  unfolding broker_from_domain broker_into_domain
  broker-back b stored w w' p h =
      let (s, v, e, h') =
        continue-eq-ok (optional_from_domain c project_id b.id b.credentials w) _ h in
      subst (λ s. broker_into_domain c project_id s ≡ ok b) (pair-eq h')
        (simp (optional-back b.id b.credentials s w v p e))

  header-back :
      (sink_id : Identifier) (header : HttpHeaderTemplate) (stored : StoredHttpHeaderTemplate)
      (w w' : W)
      → HeaderIsSecret header
      → header_from_domain c project_id sink_id header w ≡ (ok stored, w')
      → header_into_domain c project_id sink_id stored ≡ ok header
  unfolding header_from_domain header_into_domain
  header-back sink_id header stored w w' p h =
      let (s, v, e, h') = continue-eq-ok (c.encrypt header.value _ w) _ h in
      subst (λ s. header_into_domain c project_id sink_id s ≡ ok header) (pair-eq h')
        (simp (faithful _ _ s w v e, p))

  kind-back :
      (sink_id : Identifier) (kind : SinkKind) (stored : StoredSinkKind) (w w' : W)
      → KindHasSecrets kind
      → kind_from_domain c project_id sink_id kind w ≡ (ok stored, w')
      → kind_into_domain c project_id sink_id stored ≡ ok kind
  unfolding kind_from_domain kind_into_domain
  kind-back sink_id (webhook url method headers timeout) stored w w' p h =
      let (s, v, e, h') =
        continue-eq-ok (traverse (header_from_domain c project_id sink_id) headers w) _ h in
      subst (λ s. kind_into_domain c project_id sink_id s ≡ ok (webhook url method headers timeout))
        (pair-eq h')
        (rw
          (collect-traverse (header_from_domain c project_id sink_id)
            (header_into_domain c project_id sink_id) HeaderIsSecret (header-back sink_id) headers s
            w v p e)
          refl)
  kind-back sink_id (database connection_ref table) stored w w' p h =
      subst (λ s. kind_into_domain c project_id sink_id s ≡ ok (database connection_ref table))
        (pair-eq h) refl

  sink-back :
      (k : SinkDefinition) (stored : StoredSinkDefinition) (w w' : W)
      → SinkHasSecrets k
      → sink_from_domain c project_id k w ≡ (ok stored, w')
      → sink_into_domain c project_id stored ≡ ok k
  unfolding sink_from_domain sink_into_domain
  sink-back k stored w w' p h =
      let (s, v, e, h') = continue-eq-ok (kind_from_domain c project_id k.id k.kind w) _ h in
      subst (λ s. sink_into_domain c project_id s ≡ ok k) (pair-eq h')
        (simp (kind-back k.id k.kind s w v p e))

module _ {W N : Type 0} (c : SecretCipher W) where
  -- With a cipher that decrypts what it has encrypted under the same associated data, a valid
  -- configuration, all of whose passwords and header values are valid secrets, is given back,
  -- unchanged, when its stored form is loaded.
  pub decode-encode :
      (p : ProjectConfig N) (stored : StoredProjectConfig N) (w w' : W)
      → ((s aad : Str) (e : EncryptedSecret) (v v' : W)
          → c.encrypt s aad v ≡ (ok e, v')
          → c.decrypt e aad ≡ ok s)
      → validate_project p ≡ ok tt
      → All BrokerHasSecrets p.brokers
      → All SinkHasSecrets p.sinks
      → encode c p w ≡ (ok stored, w')
      → decode c stored ≡ ok p
  unfolding encode decode validate_project
  decode-encode p stored w w' faithful valid bs ss h =
      let (brokers, v, e, h1) =
        continue-eq-ok (traverse (broker_from_domain c p.id) p.brokers w) _ h in
      let (sinks, u, e', h2) = continue-eq-ok (traverse (sink_from_domain c p.id) p.sinks v) _ h1 in
      subst (λ s. decode c s ≡ ok p) (pair-eq h2)
        (simp (
          collect-traverse (broker_from_domain c p.id) (broker_into_domain c p.id) BrokerHasSecrets
              (broker-back c faithful p.id) p.brokers brokers w v bs e,
          collect-traverse (sink_from_domain c p.id) (sink_into_domain c p.id) SinkHasSecrets
              (sink-back c faithful p.id) p.sinks sinks v u ss e',
          valid,
        ))

-- The password of one broker and that of another, of another project, can be encrypted under the
-- same associated data, since an id may hold colons.
pub broker_password_aad-collision :
    (p b q : Identifier)
    → broker_password_aad (p ++ (codes ":broker:" ++ b)) q
      ≡ broker_password_aad p (b ++ (codes ":broker:" ++ q))
unfolding broker_password_aad
broker_password_aad-collision p b q = simp append_assoc
