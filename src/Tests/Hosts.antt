-- ===== src/Tests/Hosts.antt =====
-- hostserv.c: additions and deletions of virtual hosts.
use k9_chatnet.Common.{◌≡◌, refl, List, [], ◌∷◌, Bytes, none, some, codes}
use k9_chatnet.HostServ.{
  HostCore, add_host_core, find_host_core, insert_host_core, delete_host_core, del_host_core,
  get_v_host, get_v_ident,
}
use k9_chatnet.HostServ.Map.{Sorted, lookup}
use k9_chatnet.HostServ.History.{
  Command, add, del, do_command, do_commands, last_meaning, host_of, ident_of,
  do_commands-get_v_host,
}
use k9_chatnet.Text.Case.{stricmp, tolower}

abbrev ann : HostCore
ann = record {
  nick = codes "ann";
  v_ident = none;
  v_host = codes "a.b";
  creator = codes "oper";
  time = 1;
}

abbrev bob : HostCore
bob = record {
  nick = codes "Bob";
  v_ident = none;
  v_host = codes "c.d";
  creator = codes "oper";
  time = 2;
}

abbrev new_bob : HostCore
new_bob = record {
  nick = codes "bob";
  v_ident = some (codes "id");
  v_host = codes "e.f";
  creator = codes "oper";
  time = 3;
}

abbrev commands : List Command
commands = add bob ∷ add ann ∷ add new_bob ∷ del (codes "ANN") ∷ []

do_commands-get_v_host_example :
    Sorted (do_commands commands (ann ∷ []))
    × ((m : Bytes)
        → (get_v_host m (do_commands commands (ann ∷ []))
            ≡ host_of (last_meaning m commands (lookup m (ann ∷ []))))
          × (get_v_ident m (do_commands commands (ann ∷ []))
              ≡ ident_of (last_meaning m commands (lookup m (ann ∷ [])))))
do_commands-get_v_host_example = do_commands-get_v_host commands (ann ∷ []) (tt, tt)

commands_done : do_commands commands (ann ∷ []) ≡ new_bob ∷ []
unfolding do_commands do_command add_host_core find_host_core insert_host_core delete_host_core
    del_host_core stricmp tolower
commands_done = refl
