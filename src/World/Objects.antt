-- ===== src/World/Objects.antt =====
-- survol/scripts/dockit.py: `CIM_Process`, `CIM_DataFile` and the table of the objects. The objects of
-- a class are in the order of their creation. An object of this model is its key: the handle of a
-- process, the name of a file.
pub mod Trees
pub mod Created
pub mod Tops
pub mod Attributes
mod Tests
use survol.Base.{
  ℕ, ◌+◌, ◌==◌, Text, codes, text_eq, starts_with, List, [], ◌∷◌, ◌++◌, map, Option, none, some,
  Bool, true, false, ◌&&◌, ◌||◌, not, if◌then◌else◌, take, drop, ℤ, pos, Dict, int_eq, int_beq,
  text_eq_instance, lookup, insert,
}
use survol.Batch.Values.{Arg, Args, nil, cons, text, list, object, none_value, arg_str}
use survol.Batch.Calls.{join}
use survol.Batch.Failure.{Result, ok, raised, duplicate_process, self_parent}
use survol.Symbols.{rfind_in}
use survol.World.{World, Process, DataFile, FileAccess, Library}
use survol.World.Actions.{Action, Done, done, pure, raise, lift, gets, modify, ◌>>=◌, ◌>>◌}
use survol.World.Paths.{to_abs_path, as_pattern_text}
use survol.World.Paths.Category.{path_category, match_peer}

-- The attributes of one object.
unfoldable pub change_process : (Process → Process) → ℤ → World → World
change_process f p w = elim (lookup p w.processes) [
  | none ↦ w
  | some o ↦ record w { processes = insert p (f o) w.processes }
]

unfoldable pub change_file : (DataFile → DataFile) → Text → World → World
change_file f n w = elim (lookup n w.files) [
  | none ↦ w
  | some o ↦ record w { files = insert n (f o) w.files }
]

-- An attribute of a process, or `d` if there is no such process.
unfoldable pub attribute : {X : Type 0} → (Process → X) → X → ℤ → World → X
attribute field d p w = elim (lookup p w.processes) [ none ↦ d | some o ↦ field o ]

abbrev pub parent_of : ℤ → World → Option ℤ
parent_of = attribute (λ o. o.parent) none

abbrev pub sub_processes_of : ℤ → World → List ℤ
sub_processes_of = attribute (λ o. o.sub_processes) []

unfoldable pub mem_int : ℤ → List ℤ → Bool
mem_int p [] = false
mem_int p (q ∷ l) = int_beq p q || mem_int p l

-- `m_subProcesses.add`, on a set
unfoldable pub add_int : ℤ → List ℤ → List ℤ
unfolding mem_int
add_int p l = if mem_int p l then l else l ++ p ∷ []

-- `SetParentProcess`
unfoldable pub set_parent_process : ℤ → ℤ → Action Done
set_parent_process p parent = do
  if int_beq p parent then raise self_parent else pure done
  modify (change_process (λ o. record o { parent = some parent }) p)
  modify (change_process (λ o. record o { sub_processes = add_int p o.sub_processes }) parent)

-- `AddParentProcess`
unfoldable pub add_parent_process : ℤ → Text → ℤ → Action Done
add_parent_process p time_stamp parent = do
  set_parent_process p parent
  modify (change_process (λ o. record o { creation_date = some time_stamp }) p)

-- `if not self.m_parentProcess`
unfoldable pub or_set_parent : Option ℤ → ℤ → ℤ → Action Done
or_set_parent none p parent = set_parent_process p parent
or_set_parent (some q) p parent = pure done

-- `WaitProcessEnd`
unfoldable pub wait_process_end : ℤ → Text → ℤ → Action Done
wait_process_end p time_stamp parent = do
  modify (change_process (λ o. record o { termination_date = some time_stamp }) p)
  known ← gets (parent_of p)
  or_set_parent known p parent

-- The only process there is.
unfoldable pub only_process : Dict ℤ Process → Option ℤ
only_process [] = none
only_process ((p, o) ∷ []) = some p
only_process ((p, o) ∷ (q, o') ∷ m) = none

abbrev pub new_process : Text → Option ℤ → Process
new_process current_directory parent = record {
  parent = parent;
  sub_processes = [];
  creation_date = none;
  termination_date = none;
  current_directory = current_directory;
  executable = none;
  command_line = none;
  command_list = none;
  is_thread = false;
  accesses = [];
}

-- The new object goes to the table when its constructor is done.
unfoldable pub store_process : ℤ → Option ℤ → World → World
store_process p parent w = record w {
  processes = insert p (new_process w.current_directory parent) w.processes;
}

-- `CIM_Process(procId)`, and the entry of the table: the second process is taken for a child of the
-- first one.
unfoldable pub create_with : Option ℤ → ℤ → Action Done
create_with none p = modify (store_process p none)
create_with (some q) p = do
  if int_beq q p then raise duplicate_process else pure done
  modify (change_process (λ o. record o { sub_processes = add_int p o.sub_processes }) q)
  modify (store_process p (some q))

unfoldable pub create_process : ℤ → Action Done
create_process p = do first ← gets (λ w. only_process w.processes); create_with first p

-- `ToObjectPath_CIM_Process(aPid)`: `CreateObjectPath` with the class of processes.
unfoldable pub or_create : Option Process → ℤ → Action ℤ
or_create none p = do create_process p; pure p
or_create (some o) p = pure p

unfoldable pub to_process : ℤ → Action ℤ
to_process p = do known ← gets (λ w. lookup p w.processes); or_create known p

-- `SetExecutable` and `SetIsExecuted`
unfoldable pub set_executable : ℤ → Text → Action Done
set_executable p file = modify (change_process (λ o. record o { executable = some file }) p)

unfoldable pub set_is_executed : Text → Action Done
set_is_executed file = modify (change_file (λ o. record o { is_executed = true }) file)

-- The items of a Python value that a `for` goes through; a text gives its characters.
unfoldable pub args_list : Args → List Arg
args_list nil = []
args_list (cons a l) = a ∷ args_list l

unfoldable pub items : Arg → Option (List Arg)
unfolding args_list
items (text s) = some (map (λ c. text (c ∷ [])) s)
items (list l) = some (args_list l)
items (object m) = none
items none_value = none

-- `SetCommandLine`; an empty command line and None are left out.
unfoldable pub command_line_of : Library → Arg → Option Text
unfolding items join
command_line_of lib command = elim (items command) [
  | none ↦ none
  | some l ↦ elim l [
    | [] ↦ none
    | a ∷ rest ↦ some (join (codes " ") (map (arg_str lib.repr) (a ∷ rest)))
  ]
]

unfoldable pub with_command : Option Text → Arg → Process → Process
with_command none command o = o
with_command (some line) command o = record o {
  command_line = some line;
  command_list = some command;
}

unfoldable pub set_command_line : Library → ℤ → Arg → Action Done
set_command_line lib p command =
    modify (change_process (with_command (command_line_of lib command) command) p)

unfoldable pub set_thread : ℤ → Action Done
set_thread p = modify (change_process (λ o. record o { is_thread = true }) p)

-- `SetProcessCurrentDir` and `GetProcessCurrentDir`
unfoldable pub set_process_current_dir : ℤ → Text → Action Done
set_process_current_dir p dir =
    modify (change_process (λ o. record o { current_directory = dir }) p)

abbrev pub process_current_dir : ℤ → World → Text
process_current_dir = attribute (λ o. o.current_directory) (codes "UnknownCwd")

-- `SetAddrPort`: the text behind the last colon is the port.
unfoldable pub set_addr_port : Library → Text → DataFile → DataFile
unfolding rfind_in
set_addr_port lib path_ip o = elim (rfind_in b':' path_ip 0) [
  | none ↦ record o { destination = some path_ip }
  | some i ↦
      let addr = take i path_ip in
      record o {
        port = some (drop (i + 1) path_ip);
        destination = elim (lib.host_by_addr addr) [ none ↦ some addr | some host ↦ some host ];
      }
]

-- `CIM_DataFile(pathName)`
unfoldable pub new_data_file : Library → Text → DataFile
unfolding set_addr_port path_category match_peer
new_data_file lib path_name =
    let plain : DataFile = record {
      category = path_category path_name;
      destination = none;
      port = none;
      socket_address = none;
      is_executed = false;
      accesses = [];
    } in
    elim (match_peer (codes "TCP:[") path_name) [
      | some peer ↦ set_addr_port lib peer plain
      | none ↦ elim (match_peer (codes "TCPv6:[") path_name) [
        | some peer ↦ set_addr_port lib peer plain
        | none ↦ plain
      ]
    ]

-- `CreateObjectPath` with the class of files.
unfoldable pub store_file : Library → Text → World → World
store_file lib name w = record w { files = insert name (new_data_file lib name) w.files }

unfoldable pub or_create_file : Library → Option DataFile → Text → Action Text
or_create_file lib none name = do modify (store_file lib name); pure name
or_create_file lib (some o) name = pure name

unfoldable pub to_file : Library → Text → Action Text
to_file lib name = do known ← gets (λ w. lookup name w.files); or_create_file lib known name

-- The directory that a relative name is read in; no process is taken for the number 0.
unfoldable pub directory_for : ℤ → Action Text
directory_for p =
    if int_beq p (pos 0) then pure [] else do to_process p; gets (process_current_dir p)

-- `ToObjectPath_CIM_DataFile(pathName, aPid)`
unfoldable pub to_data_file : Library → Arg → ℤ → Action Text
to_data_file lib path_name p = do
  dir_path ← directory_for p
  name ← lift (as_pattern_text path_name)
  abs_path ← lift (to_abs_path dir_path name)
  to_file lib abs_path

-- `IsPlainFile`
unfoldable pub is_plain_file : Text → Bool
unfolding starts_with
is_plain_file [] = false
is_plain_file (c ∷ s) =
    let name = c ∷ s in
    not (
      starts_with name (codes "UNIX:")
      || starts_with name (codes "TCP:")
      || starts_with name (codes "TCPv6:")
      || starts_with name (codes "NETLINK:")
      || starts_with name (codes "pipe:")
      || starts_with name (codes "UDP:")
      || starts_with name (codes "UDPv6:"))

-- `GetExposedPorts`, a set
unfoldable pub mem_port : Text → List Text → Bool
mem_port t [] = false
mem_port t (u ∷ l) = text_eq t u || mem_port t l

unfoldable pub add_port : Text → List Text → List Text
unfolding mem_port
add_port t l = if mem_port t l then l else l ++ t ∷ []

unfoldable pub exposed_ports : Dict Text DataFile → List Text → List Text
unfolding add_port
exposed_ports [] ports = ports
exposed_ports ((n, o) ∷ m) ports =
    exposed_ports m (elim o.port [ none ↦ ports | some t ↦ add_port t ports ])
