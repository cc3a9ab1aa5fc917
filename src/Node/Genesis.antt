-- ===== src/Node/Genesis.antt =====
-- node/src/chain_spec.rs: the genesis of the chains that are built in, and the parachain they name.
use Prim.Native.String.{String, ◌++◌}
use contradots_techconnect_c.Base.{
  ℕ, ◌≤◌, ◌≡◌, refl, sym, ap, subst, true, none, some, List, ◌∷◌, arith, length, contains, count,
  all,
}
use contradots_techconnect_c.Node.Data.{
  AccountId, Builder, ChainType, GenesisConfig, development, local, returned, Step, expect,
}
use contradots_techconnect_c.Node.Library.{Substrate}
use contradots_techconnect_c.Runtime.{parachain_id}
use contradots_techconnect_c.Node.Logs.{bind-returned}
use contradots_techconnect_c.Node.ChainSpec.{
  endow, relay_chain, properties, get_account_id_from_seed, build_genesis, development_chain_spec,
  local_chain_spec,
}
use contradots_techconnect_c.Node.Endowment.{
  IsAccepted, endow-accounts, endow-total, endow-AtLeast, distinct_texts, dev_seeds, local_seeds,
  is_seed, accounts_of, distinct,
}

-- A specification with an identifier, a type of chain and a number of endowed accounts, in such a
-- genesis, for the parachain and the relay chain of the runtime.
pub record IsOfRuntime (b : Builder) (id : String) (kind : ChainType) (accounts : ℕ)
    (sudo : AccountId) : Type 0 where
  pub identifier : b.id ≡ id
  pub chain_type : b.chain_type ≡ kind
  pub endowed : length b.genesis_config.balances ≡ accounts
  pub genesis : IsAccepted b.genesis_config sudo
  pub para_id : b.extensions.para_id ≡ parachain_id
  pub relay : b.extensions.relay_chain ≡ relay_chain

module _ (L : Substrate) (pair_of : String → L.Pair)
    (derives : (seed : String)
      → is_seed seed ≡ true
      → L.from_string ("//" ++ seed) ≡ some (pair_of seed))
    (injective : (s t : String)
      → is_seed s ≡ true
      → is_seed t ≡ true
      → L.into_account (L.into_signer (L.public (pair_of s)))
        ≡ L.into_account (L.into_signer (L.public (pair_of t)))
      → s ≡ t)
    (code : List ℕ) (built : L.wasm_binary ≡ some code) where
  abbrev account_of : String → AccountId
  account_of seed = L.into_account (L.into_signer (L.public (pair_of seed)))

  -- The accounts of some seeds, and the genesis that endows them.
  abbrev endowed : List String → List AccountId
  endowed seeds = accounts_of account_of injective ("Alice" ∷ seeds)

  abbrev genesis_of : List String → GenesisConfig
  genesis_of seeds = record {
    code = code;
    minimum_period = 0;
    balances = endow (endowed seeds);
    sudo_key = some (account_of "Alice");
  }

  abbrev development_builder : Builder
  development_builder = record {
    code = code;
    extensions = record { relay_chain = relay_chain; para_id = parachain_id };
    name = "Development";
    id = "dev";
    chain_type = development;
    genesis_config = genesis_of dev_seeds;
    protocol_id = none;
    properties = properties;
  }

  abbrev local_builder : Builder
  local_builder = record {
    code = code;
    extensions = record { relay_chain = relay_chain; para_id = parachain_id };
    name = "Local Testnet";
    id = "local_testnet";
    chain_type = local;
    genesis_config = genesis_of local_seeds;
    protocol_id = some "template-local";
    properties = properties;
  }

  endowed-IsAccepted :
      (seeds : List String)
      → all is_seed ("Alice" ∷ seeds) ≡ true
      → distinct_texts ("Alice" ∷ seeds) ≡ true
      → length (accounts_of account_of injective seeds) ≤ 5
      → IsAccepted (genesis_of seeds) (account_of "Alice")
  endowed-IsAccepted seeds known new few =
      let xs = endowed seeds in
      record {
        distinct = λ a.
            subst (λ ys. count a ys ≤ 1) (sym (endow-accounts xs))
              (distinct account_of injective ("Alice" ∷ seeds) known new a);
        alive = endow-AtLeast xs;
        issued = omega (arith, endow-total xs, few);
        sudo_key = refl;
        sudo_endowed =
            subst (λ ys. contains ys (account_of "Alice") ≡ true) (sym (endow-accounts xs))
              (ground arith);
      }

  account_found :
      (seed : String) (log : List Step)
      → is_seed seed ≡ true
      → get_account_id_from_seed L seed log ≡ (returned (account_of seed), log)
  unfolding get_account_id_from_seed
  account_found seed log known =
      bind-returned _ _ {log = log} (ap (λ p. expect p log) (derives seed known)) refl

  genesis_built :
      (xs : List AccountId) (sudo : AccountId) (log : List Step)
      → build_genesis L xs sudo log ≡ (
        returned
            (record { code = code; minimum_period = 0; balances = endow xs; sudo_key = some sudo }),
        log,
      )
  unfolding build_genesis
  genesis_built xs sudo log = bind-returned _ _ {log = log} (ap (λ p. expect p log) built) refl

  development_built :
      (log : List Step) → development_chain_spec L log ≡ (returned development_builder, log)
  unfolding development_chain_spec
  development_built log = bind-returned _ _ (account_found "Alice" log refl) (
      bind-returned _ _ (account_found "Bob" log refl) (
        bind-returned _ _ (account_found "Charlie" log refl) (
          bind-returned _ _ (account_found "Dave" log refl) (
            bind-returned _ _ (account_found "Eve" log refl) (
              bind-returned _ _ (account_found "Ferdie" log refl) (
                bind-returned _ _ (ap (λ p. expect p log) built) (
                  bind-returned _ _ (genesis_built (endowed dev_seeds) (account_of "Alice") log)
                    refl)))))))

  local_built : (log : List Step) → local_chain_spec L log ≡ (returned local_builder, log)
  unfolding local_chain_spec
  local_built log = bind-returned _ _ (account_found "Alice" log refl) (
      bind-returned _ _ (account_found "Bob" log refl) (
        bind-returned _ _ (account_found "Charlie" log refl) (
          bind-returned _ _ (ap (λ p. expect p log) built) (
            bind-returned _ _ (genesis_built (endowed local_seeds) (account_of "Alice") log)
              refl))))

  -- Where each of the six development seeds, Alice to Ferdie, gives a key, different seeds of them give
  -- different accounts, and the runtime is compiled: the specification of the development chain,
  -- "dev" with six endowed accounts, and that of the local chain, "local_testnet" with three, are
  -- built without a call that does something; their genesis endows no account twice, each with at
  -- least the existential deposit and the sudo key, Alice's, among them, in an issuance within a
  -- `u128`; and they name the parachain and the relay chain of the runtime.
  pub built_in_specs_accepted :
      (log : List Step)
      → ((b : Builder) × (development_chain_spec L log ≡ (returned b, log))
          × IsOfRuntime b "dev" development 6 (account_of "Alice"))
        × ((b : Builder) × (local_chain_spec L log ≡ (returned b, log))
            × IsOfRuntime b "local_testnet" local 3 (account_of "Alice"))
  built_in_specs_accepted log = (
    (
      development_builder,
      development_built log,
      record {
        identifier = refl;
        chain_type = refl;
        endowed = refl;
        genesis = endowed-IsAccepted dev_seeds refl refl (omega arith);
        para_id = refl;
        relay = refl;
      },
    ),
    (
      local_builder,
      local_built log,
      record {
        identifier = refl;
        chain_type = refl;
        endowed = refl;
        genesis = endowed-IsAccepted local_seeds refl refl (omega arith);
        para_id = refl;
        relay = refl;
      },
    ),
  )
