-- ===== src/Tests/Listener.antt =====
-- Runs of jni/main/ServerListener.cpp with two clients.
use mathlib.Core.Option.{some-injective}
use mathlib.Core.Path.{subst}
use vr_admin.Prelude.{
  ◌≡◌, refl, Bool, true, false, if◌then◌else◌, ◌||◌, eqb_ℤ, some, [], ◌∷◌, length, ◌≤◌, ℤ, pos,
  minus_one, ok, arith,
}
use vr_admin.CString.{
  Bytes, codes, strcmp, strcasecmp, strncmp, strncasecmp, tolower, c_str, has_terminator,
  read_c_str, sprintf, snprintf, strncpy, digits, format_lu, format_d, before_dot, isspace, isdigit,
  scan, signed_value, skip_space, atoll, to_uint64,
}
use vr_admin.VrSdk.{
  string_lt, version_property, new_sdk, find, insert, add_external_sdk_item, get_feature,
}
use vr_admin.XmlDatabase.{
  append_types, join_types, get_all_sdk_types, first_of_type, get_sdk, get_sdks_count,
  index_of_type, generate_sdk, update_at, is_external_sdk, visit_node, visit_nodes, parser,
}
use vr_admin.XmlDatabase.Types.{index_of_type-none}
use vr_admin.ClientConnector.{post_select_with, Socket, process_message, pre_select}
use vr_admin.ServerListener.{
  ServerListener, new_listener, has_connector, add_connector, erase, del_connector, Round,
  pre_select_all, select_set, post_select_all, del_all, run_round, History, run_rounds, Setup,
  prologue, run,
}
use vr_admin.ServerListener.Connectors.{IsValid, has_connector-false}
use vr_admin.ServerListener.Rounds.{Fits}
use vr_admin.ServerListener.Startup.{IsFresh, Ends, run-Ends}
use vr_admin.ServerListener.EndToEnd.{Tells, new_listener-Tells}
use vr_admin.ServerListener.Selection.{IsSelected, plain_round, run_round-plain_round}
use vr_admin.ServerListener.Sent.{HistoryAnswered, run_rounds-HistoryAnswered}
use vr_admin.Tests.Data.{
  lvr_sdk, svr_version, lvr_version, svr_nodes, lvr_nodes, info_database, info_xml, svr_info,
  lvr_info, info-HasTexts, is_item, node_name, version_of, read_info,
}

unfoldable pub program : Unit {0}
unfolding strcmp strcasecmp strncmp strncasecmp tolower c_str has_terminator read_c_str sprintf
    snprintf strncpy digits format_lu format_d before_dot isspace isdigit scan signed_value
    skip_space atoll to_uint64 string_lt version_property new_sdk find insert add_external_sdk_item
    get_feature append_types join_types get_all_sdk_types first_of_type get_sdk get_sdks_count
    index_of_type generate_sdk update_at is_external_sdk visit_node visit_nodes parser
    process_message post_select_with pre_select new_listener has_connector add_connector erase
    del_connector pre_select_all select_set post_select_all del_all run_round run_rounds prologue
    run is_item node_name version_of read_info
program = tt

abbrev pub fresh : ServerListener
fresh = record {
  wakeup_read = minus_one;
  wakeup_write = minus_one;
  listen_fd = minus_one;
  connectors = [];
  xml_data = info_database;
}

-- The listener in its loop, with the clients 7 and 8.
abbrev pub two_clients : ServerListener
two_clients = record fresh {
  wakeup_read = pos 3;
  wakeup_write = pos 4;
  listen_fd = pos 5;
  connectors = pos 7 ∷ pos 8 ∷ [];
}

abbrev pub setup : Setup
setup = record { pipe = some (pos 3, pos 4); control_socket = pos 5; listens = true }

-- The client 8 asks for the version of the SVR SDK and all others end.
abbrev asks_version : ℤ → Socket
asks_version fd = record {
  incoming = if eqb_ℤ fd (pos 8) then some (codes "svr_sdk_version") else some [];
  accepts = true;
}

-- A client arrives at the listening socket, while both others are ready.
abbrev pub busy : Round
busy = record {
  nfds = pos 3;
  interrupted = false;
  ready = λ fd. eqb_ℤ fd (pos 5) || eqb_ℤ fd (pos 7) || eqb_ℤ fd (pos 8);
  accepted = pos 9;
  sockets = asks_version;
}

abbrev pub arrival : Round
arrival = record busy { nfds = pos 1; ready = λ fd. eqb_ℤ fd (pos 5); accepted = pos 7 }

run_round-busy :
    run_round busy two_clients
    ≡ ok (
        some (
          record two_clients { connectors = pos 8 ∷ pos 9 ∷ [] },
          record { sent = (pos 8, svr_version) ∷ []; closed = pos 7 ∷ [] },
        ))
unfolding program
run_round-busy = refl

pub new_listener-info :
    new_listener info_xml 10 []
    ≡ some
        (fresh, (codes "vr.svr.version", svr_version) ∷ (codes "vr.lvr.version", lvr_version) ∷ [])
unfolding program
new_listener-info = refl

short_request :
    (b : Bool)
    → (s : Bytes) → (if b then some (codes "svr_sdk_version") else some []) ≡ some s
    → length s ≤ 64
short_request true s e = subst (λ t. length t ≤ 64) (some-injective _ s e) (omega arith)
short_request false s e = subst (λ t. length t ≤ 64) (some-injective _ s e) (omega arith)

pub busy-Fits : Fits busy
busy-Fits fd s e = short_request (eqb_ℤ fd (pos 8)) s e

pub arrival-Fits : Fits arrival
arrival-Fits fd s e = short_request (eqb_ℤ fd (pos 8)) s e

pub two_clients-IsValid : IsValid two_clients
unfolding has_connector
two_clients-IsValid = record {
  distinct = (has_connector-false (pos 7) (pos 8 ∷ []) refl, (tt, tt));
  positive = (refl, (refl, tt));
}

fresh-IsFresh : IsFresh fresh
unfolding index_of_type strcmp
fresh-IsFresh = record {
  no_connectors = refl;
  distinct = (index_of_type-none (codes "SVR") (lvr_sdk ∷ []) refl, (tt, tt));
  texts = info-HasTexts;
}

new_listener-Tells_example :
    (l : ServerListener) × (new_listener info_xml 10 []
      ≡ some (
        l,
        (version_property (codes "SVR"), svr_version)
            ∷ (version_property (codes "LVR"), lvr_version)
            ∷ [],
      ))
    × Tells info_xml svr_version lvr_version svr_nodes lvr_nodes svr_info lvr_info 10
        (omega arith)
        (omega arith)
        l.xml_data
new_listener-Tells_example =
    new_listener-Tells info_xml svr_version lvr_version svr_nodes lvr_nodes svr_info lvr_info 10
      (omega arith) (omega arith) []

run-Ends_example :
    (h : History) × (run setup (arrival ∷ busy ∷ []) fresh ≡ ok h)
    × Ends setup (arrival ∷ busy ∷ []) fresh h
run-Ends_example =
    run-Ends setup (arrival ∷ busy ∷ []) fresh fresh-IsFresh (arrival-Fits, (busy-Fits, tt))

busy-IsSelected : IsSelected busy two_clients
unfolding has_connector
busy-IsSelected = record { counted = refl; from_set = λ fd h. ground arith; unused = refl }

run_round-plain_round_example : run_round busy two_clients ≡ plain_round busy two_clients
run_round-plain_round_example = run_round-plain_round busy two_clients busy-IsSelected

run_rounds-HistoryAnswered_example :
    HistoryAnswered info_database (busy ∷ busy ∷ []) (run_rounds (busy ∷ busy ∷ []) two_clients)
run_rounds-HistoryAnswered_example =
    run_rounds-HistoryAnswered (busy ∷ busy ∷ []) two_clients two_clients-IsValid info-HasTexts
      (busy-Fits, (busy-Fits, tt))
