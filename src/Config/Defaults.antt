-- ===== src/Config/Defaults.antt =====
-- `injectDefaultValue` of biz/config/init.go, on the settings that it reads and writes.
use mathlib.Core.Option.{some-injective}
use trunker.Base.{
  ◌≡◌, refl, ap, ◌≢◌, ◌⊎◌, inl, inr, false, ◌&&◌, Option, none, some, [], ◌∷◌, arith, if◌then◌else◌,
  Bool-cases,
}
use trunker.Base.Bytes.{Bytes, codes, eq_bytes, eq_bytes_iff}

pub record Settings : Type 0 where
  pub host_ports : Bytes
  pub metrics_host_ports : Bytes
  pub mode : Bytes
  pub persist_file : Bytes
  pub remote_server : Bytes
  pub tracker_id : Bytes

abbrev or_default : Bytes → Bytes → Bytes
or_default value default = if eq_bytes value [] then default else value

-- The settings after the defaults are filled in.
abbrev filled_in : Settings → Settings
filled_in conf = record conf {
  host_ports = or_default conf.host_ports (codes "0.0.0.0:8888");
  persist_file =
      if eq_bytes conf.mode (codes "memory")
      then or_default conf.persist_file (codes "persist.dat")
      else conf.persist_file;
  metrics_host_ports = or_default conf.metrics_host_ports (codes "127.0.0.1:9091");
  tracker_id = or_default conf.tracker_id (codes "default");
}

-- None is the panic on a missing remote server.
unfoldable pub inject_default_value : Settings → Option Settings
inject_default_value conf =
    if eq_bytes conf.mode (codes "rpc") && eq_bytes conf.remote_server []
    then none
    else some (filled_in conf)

or_default_twice :
    (v d : Bytes) → eq_bytes d [] ≡ false → or_default (or_default v d) d ≡ or_default v d
unfolding eq_bytes
or_default_twice [] d h = rw h refl
or_default_twice (x ∷ v) d h = refl

filled_in_twice : (conf : Settings) → filled_in (filled_in conf) ≡ filled_in conf
unfolding eq_bytes
filled_in_twice conf = elim (Bool-cases (eq_bytes conf.mode (codes "memory"))) [
  | inl e ↦
      rw
        (
          e,
          or_default_twice conf.host_ports (codes "0.0.0.0:8888") refl,
          or_default_twice conf.persist_file (codes "persist.dat") refl,
          or_default_twice conf.metrics_host_ports (codes "127.0.0.1:9091") refl,
          or_default_twice conf.tracker_id (codes "default") refl,
        )
        refl
  | inr e ↦
      rw
        (
          e,
          or_default_twice conf.host_ports (codes "0.0.0.0:8888") refl,
          or_default_twice conf.metrics_host_ports (codes "127.0.0.1:9091") refl,
          or_default_twice conf.tracker_id (codes "default") refl,
        )
        refl
]

-- A value stays, and a missing one becomes the default.
abbrev pub IsDefaulted : Bytes → Bytes → Bytes → Type 0
IsDefaulted value default filled =
    ((value ≡ []) × (filled ≡ default)) ⊎ ((value ≢ []) × (filled ≡ value))

or_default-IsDefaulted :
    (value default : Bytes) → IsDefaulted value default (or_default value default)
unfolding eq_bytes
or_default-IsDefaulted [] default = inl (refl, refl)
or_default-IsDefaulted (x ∷ xs) default = inr ((λ e. ground (arith, e)), refl)

-- The settings that are given and those that come out.
pub record AreDefaulted (conf filled : Settings) : Type 0 where
  pub host_ports : IsDefaulted conf.host_ports (codes "0.0.0.0:8888") filled.host_ports
  pub metrics_host_ports :
      IsDefaulted conf.metrics_host_ports (codes "127.0.0.1:9091") filled.metrics_host_ports
  pub tracker_id : IsDefaulted conf.tracker_id (codes "default") filled.tracker_id
  pub persist_file :
      ((conf.mode ≡ codes "memory")
        × IsDefaulted conf.persist_file (codes "persist.dat") filled.persist_file)
      ⊎ ((conf.mode ≢ codes "memory") × (filled.persist_file ≡ conf.persist_file))
  pub mode : filled.mode ≡ conf.mode
  pub remote_server : filled.remote_server ≡ conf.remote_server
  pub has_remote : (conf.mode ≢ codes "rpc") ⊎ (conf.remote_server ≢ [])

filled_in-AreDefaulted :
    (conf : Settings)
    → (eq_bytes conf.mode (codes "rpc") && eq_bytes conf.remote_server []) ≡ false
    → AreDefaulted conf (filled_in conf)
filled_in-AreDefaulted conf fine = record {
  host_ports = or_default-IsDefaulted conf.host_ports _;
  metrics_host_ports = or_default-IsDefaulted conf.metrics_host_ports _;
  tracker_id = or_default-IsDefaulted conf.tracker_id _;
  persist_file = elim (Bool-cases (eq_bytes conf.mode (codes "memory"))) [
    | inl e ↦ rw e (
        inl (
          (eq_bytes_iff conf.mode (codes "memory")).0 e,
          or_default-IsDefaulted conf.persist_file _,
        ))
    | inr e ↦
        rw e (inr ((λ m. ground (arith, e, (eq_bytes_iff conf.mode (codes "memory")).1 m)), refl))
  ];
  mode = refl;
  remote_server = refl;
  has_remote = elim (Bool-cases (eq_bytes conf.mode (codes "rpc"))) [
    | inr e ↦ inl (λ m. ground (arith, e, (eq_bytes_iff conf.mode (codes "rpc")).1 m))
    | inl e ↦ inr (λ r. ground (arith, e, fine, (eq_bytes_iff conf.remote_server []).1 r))
  ];
}

-- When the start does not end in a panic, each missing setting has its default, which for the file
-- of the peers is so in memory mode alone, the settings that were given have stayed, the mode is not
-- "rpc" or there is a remote server, and filling in the defaults again changes nothing.
pub inject_default_value_lem :
    (conf filled : Settings)
    → inject_default_value conf ≡ some filled
    → AreDefaulted conf filled × (inject_default_value filled ≡ some filled)
unfolding inject_default_value
inject_default_value_lem conf filled h =
    elim (Bool-cases (eq_bytes conf.mode (codes "rpc") && eq_bytes conf.remote_server [])) [
      | inl bad ↦ ground (arith, bad, h)
      | inr fine ↦
          let e : filled_in conf ≡ filled = some-injective _ _ (rw fine at h) in
          (
            rw (← e) (filled_in-AreDefaulted conf fine),
            rw (← e, fine) (ap some (filled_in_twice conf)),
          )
    ]
