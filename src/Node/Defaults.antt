-- ===== src/Node/Defaults.antt =====
-- `load_spec` of node/src/command.rs and `RelayChainCli` of node/src/cli.rs: the chain and the relay
-- chain that the node starts on.
use Prim.Native.String.{String, ◌++◌}
use text.Mathlib.Text.{◌==◌}
use contradots_techconnect_c.Base.{
  ℕ, ◌≡◌, refl, ap, Bool, true, false, ◌||◌, Option, some, List, ◌∷◌, inl, inr, ◌⊎◌, Bool-cases,
  arith, if◌then◌else◌, ◌∙◌,
}
use contradots_techconnect_c.Node.Data.{
  AccountId, Builder, ChainType, development, local, Extensions, returned, Step, read_json_file,
  ◌>>=◌,
}
use contradots_techconnect_c.Node.Library.{Substrate}
use contradots_techconnect_c.Runtime.{parachain_id}
use contradots_techconnect_c.Node.ChainSpec.{relay_chain, development_chain_spec, local_chain_spec}
use contradots_techconnect_c.Node.Cli.{
  RelayChainCli, new, chain_id, base_path, or_else, relay_chain_of, unwrap_or_default,
}
use contradots_techconnect_c.Node.Command.{load_spec, built_in}
use contradots_techconnect_c.Node.Logs.{bind-returned}
use contradots_techconnect_c.Node.Endowment.{is_seed}
use contradots_techconnect_c.Node.Genesis.{IsOfRuntime, built_in_specs_accepted}

abbrev pub is_built_in : String → Bool
is_built_in id = id == "dev" || (id == "template-rococo" || (id == "" || id == "local"))

module _ (L : Substrate) where
  -- The specification is loaded without a call that does something, built from the development
  -- chain's for "dev" and from the local chain's else, and names the runtime's parachain and relay
  -- chain to those who read it.
  pub record LoadsOwn (id : String) (log : List Step) (sudo : AccountId) : Type 0 where
    pub builder : Builder
    pub loaded : load_spec L id log ≡ (returned (L.build builder), log)
    pub of_runtime :
        if id == "dev"
        then IsOfRuntime builder "dev" development 6 sudo
        else IsOfRuntime builder "local_testnet" local 3 sudo
    pub names :
        L.try_get (L.build builder)
        ≡ some (record { relay_chain = relay_chain; para_id = parachain_id })

  own_extensions :
      (b : Builder) (id : String) (kind : ChainType) (accounts : ℕ) (sudo : AccountId)
      → IsOfRuntime b id kind accounts sudo
      → L.try_get (L.build b) ≡ some (record { relay_chain = relay_chain; para_id = parachain_id })
  own_extensions b id kind accounts sudo i = L.try_get-build b ∙ ground (arith, i.para_id, i.relay)

  module _ (pair_of : String → L.Pair)
      (derives : (seed : String)
        → is_seed seed ≡ true
        → L.from_string ("//" ++ seed) ≡ some (pair_of seed))
      (injective : (s t : String)
        → is_seed s ≡ true
        → is_seed t ≡ true
        → L.into_account (L.into_signer (L.public (pair_of s)))
          ≡ L.into_account (L.into_signer (L.public (pair_of t)))
        → s ≡ t)
      (code : List ℕ) (built : L.wasm_binary ≡ some code) where
    local_loads :
        (id : String) (log : List Step)
        → (id == "dev") ≡ false
        → load_spec L id log ≡ built_in L (local_chain_spec L) log
        → LoadsOwn id log (L.into_account (L.into_signer (L.public (pair_of "Alice"))))
    local_loads id log e loads =
        let (b, builds, own) =
          (built_in_specs_accepted L pair_of derives injective code built log).1 in
        record {
          builder = b;
          loaded = loads ∙ bind-returned _ _ builds refl;
          of_runtime = rw e own;
          names = own_extensions b _ _ _ _ own;
        }

    development_loads :
        (id : String) (log : List Step)
        → (id == "dev") ≡ true
        → load_spec L id log ≡ built_in L (development_chain_spec L) log
        → LoadsOwn id log (L.into_account (L.into_signer (L.public (pair_of "Alice"))))
    development_loads id log e loads =
        let (b, builds, own) =
          (built_in_specs_accepted L pair_of derives injective code built log).0 in
        record {
          builder = b;
          loaded = loads ∙ bind-returned _ _ builds refl;
          of_runtime = rw e own;
          names = own_extensions b _ _ _ _ own;
        }

    -- Where keys and the runtime are there as for the built-in specifications: the identifier "dev"
    -- loads the development chain's specification ("dev", of the type of a development chain, with
    -- six endowed accounts), the identifiers "template-rococo" and "local" and the empty one load
    -- the local chain's ("local_testnet", local, with three), both of the runtime's parachain and
    -- relay chain, and every other identifier is read as the name of a file.
    pub load_spec_cases :
        (id : String) (log : List Step)
        → ((is_built_in id ≡ true)
            × LoadsOwn id log (L.into_account (L.into_signer (L.public (pair_of "Alice")))))
          ⊎ ((is_built_in id ≡ false)
              × (load_spec L id log ≡ (L.from_json_file id log, read_json_file id ∷ log)))
    unfolding load_spec
    load_spec_cases id log = elim (Bool-cases (id == "dev")) [
      | inl e ↦ inl (ground (arith, e), development_loads id log e (rw e refl))
      | inr e ↦ elim (Bool-cases (id == "template-rococo")) [
        | inl e' ↦ inl (ground (arith, e'), local_loads id log e (rw (e, e') refl))
        | inr e' ↦ elim (Bool-cases (id == "" || id == "local")) [
          | inl e'' ↦ inl (ground (arith, e''), local_loads id log e (rw (e, e', e'') refl))
          | inr e'' ↦ inr (ground (arith, e, e', e''), rw (e, e', e'') refl)
        ]
      ]
    ]

  new_fields :
      (config : L.Config) (args : List String) (cli : RelayChainCli L) (log log' : List Step)
      → new L config args log ≡ (returned cli, log')
      → (cli.chain_id ≡ relay_chain_of (L.try_get (L.chain_spec config)))
        × (cli.base_path ≡ some (L.join (L.base_path config) "polkadot"))
  unfolding new ◌>>=◌
  new_fields config args cli log log' h = ground arith

  -- With the extensions of a chain specification, and whatever clap makes of the arguments for the
  -- relay chain: the relay chain's identifier is the one that the arguments name, and where they
  -- name none (the empty text) that of the specification; its base path is the one that they give,
  -- and else the directory "polkadot" in the node's base path.
  pub relay_chain_defaults :
      (config : L.Config) (args : List String) (e : Extensions) (cli : RelayChainCli L)
      (log log' : List Step)
      → L.try_get (L.chain_spec config) ≡ some e
      → new L config args log ≡ (returned cli, log')
      → (is_dev : Bool) (given : String) (path : Option L.PathBuf) (log1 log2 log3 log4 : List Step)
      → L.base_chain_id cli.base is_dev log1 ≡ (returned given, log2)
      → L.shared_base_path cli.base log3 ≡ (returned path, log4)
      → (chain_id L cli is_dev log1
          ≡ (returned (if given == "" then e.relay_chain else given), log2))
        × (base_path L cli log3
            ≡ (returned (or_else path (some (L.join (L.base_path config) "polkadot"))), log4))
  unfolding chain_id base_path
  relay_chain_defaults config args e cli log log' found parsed is_dev given path log1 log2 log3 log4
        names gives =
      let (ids, paths) = new_fields config args cli log log' parsed in
      (
        bind-returned _ _ names (
            ap (λ i. (returned (if given == "" then unwrap_or_default i else given), log2))
              (ids ∙ ap relay_chain_of found)),
        bind-returned _ _ gives (ap (λ p. (returned (or_else path p), log4)) paths),
      )
