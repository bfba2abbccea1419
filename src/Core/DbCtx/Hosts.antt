-- ===== src/Core/DbCtx/Hosts.antt =====
-- `id_for_host` and `host_model_info` of ci-lib-core/src/dbctx.rs.
pub mod Identity
use build_o_tron.Base.{
  ℕ, String, Bool, true, false, ◌&&◌, Option, none, some, List, Outcome, ok, err, Action, any,
  first?, ◌==◌, ◌=?◌, if◌then◌else◌,
}
use build_o_tron.Core.Protocol.{HostInfo}
use build_o_tron.Core.Table.{Table, insert, next_id, by_id}
use build_o_tron.Core.Db.{Db, HostRow}
use build_o_tron.Core.DbCtx.Lock.{DbCtx, locked}

-- The UNIQUE constraint of `CREATE_HOSTS_TABLE`. It does not name `cpu_max_freq_khz`.
unfoldable pub same_unique : HostInfo → HostRow → Bool
same_unique h r =
    r.hostname =? h.hostname
    && r.cpu_vendor_id =? h.cpu_info.vendor_id
    && r.cpu_model_name =? h.cpu_info.model_name
    && r.cpu_family =? h.cpu_info.family
    && r.cpu_model =? h.cpu_info.model
    && r.cpu_microcode =? h.cpu_info.microcode
    && r.cpu_cores == h.cpu_info.cores
    && r.mem_total =? h.memory_info.total
    && r.arch =? h.env_info.arch
    && r.family =? h.env_info.family
    && r.os =? h.env_info.os

-- The `where` of the query that `id_for_host` ends with: the columns of the constraint, and
-- `cpu_max_freq_khz`.
abbrev pub same_host : HostInfo → HostRow → Bool
same_host h r = same_unique h r && r.cpu_max_freq_khz == h.cpu_info.max_freq

unfoldable pub host_row : HostInfo → ℕ → HostRow
host_row h i = record {
  id = i;
  hostname = h.hostname;
  cpu_vendor_id = h.cpu_info.vendor_id;
  cpu_model_name = h.cpu_info.model_name;
  cpu_family = h.cpu_info.family;
  cpu_model = h.cpu_info.model;
  cpu_microcode = h.cpu_info.microcode;
  cpu_max_freq_khz = h.cpu_info.max_freq;
  cpu_cores = h.cpu_info.cores;
  mem_total = h.memory_info.total;
  arch = h.env_info.arch;
  family = h.env_info.family;
  os = h.env_info.os;
}

-- `insert or ignore into hosts …`
unfoldable pub insert_or_ignore_host : HostInfo → Db → Db
unfolding same_unique host_row
insert_or_ignore_host h db =
    if any (same_unique h) db.hosts.rows
    then db
    else record db { hosts = insert (host_row h) db.hosts }

abbrev pub found_host : Option HostRow → Outcome ℕ
found_host none = err "Query returned no rows"
found_host (some r) = ok r.id

unfoldable pub find_or_add_host : HostInfo → Action Db ℕ
unfolding insert_or_ignore_host
find_or_add_host h db =
    let db' = insert_or_ignore_host h db in (found_host (first? (same_host h) db'.hosts.rows), db')

unfoldable pub id_for_host : HostInfo → Action DbCtx ℕ
unfolding find_or_add_host
id_for_host h = locked (find_or_add_host h)

-- `select hostname, cpu_vendor_id, cpu_family, cpu_model, cpu_max_freq_khz from hosts where id=?1;`
unfoldable pub host_model_info : ℕ → Action DbCtx (String × String × String × String × ℕ)
host_model_info host_id = locked λ db. elim (by_id (λ (r : HostRow). r.id) host_id db.hosts.rows) [
  | none ↦ (err "Query returned no rows", db)
  | some r ↦ (ok (r.hostname, r.cpu_vendor_id, r.cpu_family, r.cpu_model, r.cpu_max_freq_khz), db)
]

-- `find_id_like_host`: a parenthesis in its statement closes what none has opened, so SQLite refuses
-- it, whatever the host; `message` is what it then says.
unfoldable find_id_like_host : String → HostInfo → Action DbCtx (Option ℕ)
find_id_like_host message h = locked λ db. (err message, db)
