-- ===== src/Settings/Restart.antt =====
-- Two starts of an instance on one disk.
use page_spy_api.Base.{
  String, false, some, [], ◌==◌, ◌≡◌, refl, sym, ap, ◌∙◌, inl, inr, Bool-cases, Option-cases,
}
use page_spy_api.Base.Dict.{lookup, insert, lookup-insert}
use page_spy_api.Failure.{Outcome, ok, err, panic, ok-injective}
use page_spy_api.World.Action.{Action, Done, ◌>>=◌, bind-ok, bind_inv}
use page_spy_api.Storage.{Bytes}
use page_spy_api.Storage.Disk.{Disk, os_stat}
use page_spy_api.Storage.Refinement.{no_faults, open_found}
use page_spy_api.Settings.{
  Config, EnvVars, is_any_set, load_auth_config_from_env, config_file, check_local_config_file,
  load_local_config_file, decoded, save, save_if, load_config,
}
use page_spy_api.Settings.Environment.{load_auth_again}

-- The JSON codec gives back a configuration that it wrote.
pub record Codec (decode : Bytes → Outcome Config) (encode : Config → Outcome Bytes) (c : Config)
    : Type 0 where
  pub text : Bytes
  pub encodes : encode c ≡ ok text
  pub decodes : decode text ≡ ok c

module _ (default : Bytes) (decode : Bytes → Outcome Config) (encode : Config → Outcome Bytes) where
  abbrev check : Action Disk Done
  check = check_local_config_file no_faults default decode encode

  abbrev load : Action Disk Config
  load = load_local_config_file no_faults default decode encode

  abbrev keep : EnvVars → String → Config → Action Disk Config
  keep e random c =
      save_if no_faults default decode encode (is_any_set e) (load_auth_config_from_env e random c)

  abbrev start : EnvVars → String → Action Disk Config
  start = load_config no_faults default decode encode

  checked :
      (d : Disk)
      → (b : Bytes) × (d' : Disk) × (check d ≡ (ok tt, d')) × (lookup config_file d' ≡ some b)
  unfolding check_local_config_file
  checked d = elim (Option-cases (lookup config_file d)) [
    | inl h ↦ (
      default,
      insert config_file default (insert config_file [] d),
      rw (check, check_local_config_file, os_stat, h) refl,
      lookup-insert config_file config_file default (insert config_file [] d),
    )
    | inr (b, h) ↦ (b, d, rw (check, check_local_config_file, os_stat, h) refl, h)
  ]

  present : (d : Disk) (b : Bytes) → lookup config_file d ≡ some b → check d ≡ (ok tt, d)
  unfolding check_local_config_file
  present d b h = rw (check, check_local_config_file, os_stat, h) refl

  loaded :
      (d : Disk) (b : Bytes)
      → lookup config_file d ≡ some b
      → load d ≡ (decoded no_faults default decode encode (decode b), d)
  unfolding load_local_config_file
  loaded d b h = rw (open_found config_file d b h) refl

  -- LoadConfig, when the file is there and holds a configuration.
  started :
      (e : EnvVars) (random : String) (d d' : Disk) (b : Bytes) (c : Config)
      → check d ≡ (ok tt, d')
      → lookup config_file d' ≡ some b
      → decode b ≡ ok c
      → start e random d ≡ keep e random c d'
  unfolding load_config
  started e random d d' b c checks h k =
      bind-ok check (λ done. load >>= keep e random) d d' tt checks
      ∙ bind-ok load (keep e random) d' d' c (loaded d' b h ∙ rw k refl)

  kept :
      (e : EnvVars) (r : String) (c : Config) (d : Disk)
      → (keep e r c d).0 ≡ ok (load_auth_config_from_env e r c)
  unfolding save_if
  kept e r c d = elim (Bool-cases (is_any_set e)) [ inl h ↦ rw h refl | inr h ↦ rw h refl ]

  second :
      (e : EnvVars) (r : String) (d : Disk) (b : Bytes) (c c' : Config)
      → lookup config_file d ≡ some b
      → decode b ≡ ok c'
      → load_auth_config_from_env e r c' ≡ c
      → (start e r d).0 ≡ ok c
  second e r d b c c' h k l =
      ap (λ p. p.0) (started e r d d b c' (present d b h) h k) ∙ kept e r c' d ∙ ap ok l

  decoded_ok :
      (o : Outcome Config) (c : Config)
      → decoded no_faults default decode encode o ≡ ok c
      → o ≡ ok c
  decoded_ok (ok c') c h = h
  decoded_ok (err e) c h = absurd cc
  decoded_ok panic c h = absurd cc

  saved :
      (c : Config) (d : Disk) (codec : Codec decode encode c)
      → lookup config_file (save no_faults default decode encode c d) ≡ some codec.text
  unfolding save
  saved c d codec =
      rw (save, codec.encodes)
        (lookup-insert config_file config_file codec.text (insert config_file [] d))

  unset :
      (e : EnvVars) (r : String) (c : Config)
      → is_any_set e ≡ false
      → load_auth_config_from_env e r c ≡ c
  unfolding load_auth_config_from_env
  unset e r c h = rw h refl

  -- What the first start left on the disk.
  remains :
      (e : EnvVars) (random random' : String) (d d' : Disk) (b : Bytes) (c₀ c : Config)
      → (random == "") ≡ false
      → lookup config_file d ≡ some b
      → decode b ≡ ok c₀
      → keep e random c₀ d ≡ (ok c, d')
      → Codec decode encode c
      → (start e random' d').0 ≡ ok c
  unfolding save_if
  remains e random random' d d' b c₀ c drawn h k l codec =
      let set = load_auth_config_from_env e random c₀ in
      let mine : set ≡ c = ok-injective (sym (kept e random c₀ d) ∙ ap (λ p. p.0) l) in
      elim (Bool-cases (is_any_set e)) [
        | inl s ↦
            let ends : save no_faults default decode encode set d ≡ d' =
              ap (λ p. p.1) (rw s at l) in
            second e random' d' codec.text c c
              (ap (lookup config_file)
                  (sym ends ∙ ap (λ x. save no_faults default decode encode x d) mine)
                ∙ saved c d codec)
              codec.decodes
              (ap (load_auth_config_from_env e random') (sym mine)
                ∙ load_auth_again e random random' c₀ drawn
                ∙ mine)
        | inr s ↦
            let ends : d ≡ d' = ap (λ p. p.1) (rw s at l) in
            second e random' d' b c c₀ (ap (lookup config_file) (sym ends) ∙ h) k
              (unset e random' c₀ s ∙ sym (unset e random c₀ s) ∙ mine)
      ]

  -- After a start that returned a configuration, a second start with the same environment returns
  -- the same, whatever secret it would draw, on a disk that works, if the JSON codec reads back
  -- this configuration and the secret that the first start would draw is not empty.
  pub load_config-restart :
      (e : EnvVars) (random random' : String) (d d' : Disk) (c : Config)
      → (random == "") ≡ false
      → start e random d ≡ (ok c, d')
      → Codec decode encode c
      → (start e random' d').0 ≡ ok c
  unfolding load_config
  load_config-restart e random random' d d' c drawn h codec =
      let (b, d₁, checks, there) = checked d in
      let (u, d₁', checks', h₁) = bind_inv check (λ done. load >>= keep e random) d d' c h in
      let same₁ : d₁' ≡ d₁ = ap (λ p. p.1) (sym checks' ∙ checks) in
      let (c₀, d₂, loads, h₂) = bind_inv load (keep e random) d₁' d' c h₁ in
      let found = sym loads ∙ ap load same₁ ∙ loaded d₁ b there in
      remains e random random' d₁ d' b c₀ c drawn there
        (decoded_ok (decode b) c₀ (sym (ap (λ p. p.0) found)))
        (ap (keep e random c₀) (sym (ap (λ p. p.1) found)) ∙ h₂) codec
