-- ===== src/Runner/LuaArgs.antt =====
-- `collect_build_args` of ci-runner/src/lua/mod.rs: the arguments of `Build.run`, from Lua's values.
pub mod Words
use Prim.Native.String.{◌++◌ as append}
use build_o_tron.Base.{
  ℕ, ◌+◌, String, Option, none, some, List, [], ◌∷◌, Outcome, ok, err, ◌=?◌, if◌then◌else◌, decimal,
}
use build_o_tron.Native.Notifier.{and_then}

-- A Lua value: nil, a string, a table with its sequence part and its entries by name, or any other.
mutual
  pub data LuaValue : Type 0 where
    nil : LuaValue
    string : String → LuaValue
    table : LuaItems → LuaEntries → LuaValue
    other : LuaValue

  pub data LuaItems : Type 0 where
    end : LuaItems
    item : LuaValue → LuaItems → LuaItems

  pub data LuaEntries : Type 0 where
    none_left : LuaEntries
    entry : String → LuaValue → LuaEntries → LuaEntries

pub record RunParams : Type 0 where
  pub step : Option String
  pub name : Option String
  pub env : Option (List (String × String))
  pub cwd : Option String

-- `table.get(key)`: nil where there is no such entry.
abbrev pub get : LuaEntries → String → LuaValue
get none_left k = nil
get (entry j v es) k = if j =? k then v else get es k

-- The loop over `1..=len`, from the item with index `i`.
unfoldable pub words : ℕ → LuaItems → Outcome (List String)
words i end = ok []
words i (item (string s) rest) = and_then (words (i + 1) rest) (λ ws. ok (s ∷ ws))
words i (item nil rest) = err (append (append "argument " (decimal i)) " was not a string")
words i (item (table _ _) rest) = err (append (append "argument " (decimal i)) " was not a string")
words i (item other rest) = err (append (append "argument " (decimal i)) " was not a string")

abbrev command_words : LuaValue → Outcome (List String)
command_words (table items _) = words 0 items
command_words nil = err "argument 1 was not a table"
command_words (string _) = err "argument 1 was not a table"
command_words other = err "argument 1 was not a table"

abbrev text_param : String → LuaValue → Outcome (Option String)
text_param key (string s) = ok (some s)
text_param key nil = ok none
text_param key (table _ _) = err (append (append "params[" key) "] must be a string")
text_param key other = err (append (append "params[" key) "] must be a string")

-- `pairs::<String, String>()`, of which a pair of another kind is an error.
unfoldable pub env_pairs : LuaEntries → Outcome (List (String × String))
env_pairs none_left = ok []
env_pairs (entry k (string v) es) = and_then (env_pairs es) (λ ps. ok ((k, v) ∷ ps))
env_pairs (entry k nil es) = err "params[env] has a key/value pair that is not string to string"
env_pairs (entry k (table _ _) es) =
    err "params[env] has a key/value pair that is not string to string"
env_pairs (entry k other es) = err "params[env] has a key/value pair that is not string to string"

abbrev env_param : LuaValue → Outcome (Option (List (String × String)))
env_param (table _ es) = and_then (env_pairs es) (λ ps. ok (some ps))
env_param nil = ok none
env_param (string _) = err "params[env] must be a table"
env_param other = err "params[env] must be a table"

abbrev params_of : LuaValue → Outcome RunParams
params_of (table _ es) = and_then (text_param "step" (get es "step")) λ step.
    and_then (text_param "name" (get es "name")) λ name.
      and_then (text_param "cwd" (get es "cwd")) λ cwd.
        and_then (env_param (get es "env"))
          λ env. ok (record { step = step; name = name; env = env; cwd = cwd })
params_of nil = ok (record { step = none; name = none; env = none; cwd = none })
params_of (string _) = err "argument 2 was not a table"
params_of other = err "argument 2 was not a table"

-- `collect_build_args`: the command is judged before the parameters.
unfoldable pub collect_build_args : LuaValue → LuaValue → Outcome (List String × RunParams)
unfolding words env_pairs
collect_build_args command params =
    and_then (command_words command) λ args. and_then (params_of params) λ ps. ok (args, ps)
