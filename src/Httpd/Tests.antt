-- ===== src/Httpd/Tests.antt =====
-- A request that comes in three pieces, changes of a name that the zone does not hold, and the two
-- interfaces of the daemon.
use volans.Prelude.{ℕ, ◌≡◌, refl, Option, none, some, List, [], ◌∷◌, arith}
use volans.Prelude.Int.{pos}
use volans.Text.{Sign, codes}
use volans.Samples.{Sample, a_record, sample_ldns}
use volans.Samples.Trees.{list_tree, list_tree-Walks, list_nodes, list_nodes-Maps}
use volans.Record.{recordcreate}
use volans.Record.Keys.{getset}
use volans.Index.{indexlookupkey, indexlookup}
use volans.Views.Store.{View, take_record}
use volans.Views.Samples.{Log, input_view, input_view-IsServing, no_hash}
use volans.Views.Detection.{IsServing}
use volans.Rpc.{Rpc, Status, rpc_ok, rpc_err}
use volans.Httpd.{deleterecordsets, insertrecords, deletedelegation}
use volans.Httpd.Connection.{serve, serve_lem}
use volans.Httpd.Changes.{insertrecords-deleterecordsets, deletedelegation_no_dot}
use volans.Httpd.Listener.{
  Interface, Family, af_inet, af_inet6, sockaddr_in, sockaddr_in6, httpd_create, httpd_start_flags,
  use_dual_stack, httpd_start_flags-httpd_create,
}

abbrev no_rpc : List ℕ → List ℕ → Option (Option (Rpc Sample))
no_rpc url buf = some none

abbrev never : Rpc Sample → ℕ → Option (Status × ℕ)
never rpc n = none

serve_lem_example :
    serve no_rpc never (codes "/") (codes "POST") (codes "{" ∷ codes "}" ∷ [] ∷ []) none 0
    ≡ serve no_rpc never (codes "/") (codes "POST") (codes "{}" ∷ [] ∷ []) none 0
serve_lem_example =
    serve_lem no_rpc never (codes "/") (codes "POST") (codes "{") (codes "}" ∷ []) 0
      ((λ e. cc e), tt)

abbrev owner_b : Sample → List ℕ
owner_b rr = 98 ∷ []

abbrev owner_a : Sample → List ℕ
owner_a rr = 97 ∷ []

abbrev none_below : (ℕ → ℕ → Sign) → List ℕ → ℕ → List ℕ
none_below cmp t d = t

insertrecords-deleterecordsets_example :
    (v1 v2 : View Sample (List ℕ) Log) × (deleterecordsets list_tree list_nodes no_hash owner_b
        none_below
        (a_record 1 ∷ [])
        rpc_ok
        (input_view [])
      ≡ some (rpc_err, v1))
    × (insertrecords list_tree list_nodes no_hash owner_b none_below (a_record 1 ∷ []) v1
        ≡ some (rpc_ok, v2))
    × IsServing v2
unfolding take_record indexlookupkey recordcreate indexlookup getset
insertrecords-deleterecordsets_example =
    insertrecords-deleterecordsets list_tree list_tree-Walks list_nodes list_nodes-Maps no_hash
      owner_b none_below (a_record 1) [] rpc_ok (input_view []) (λ n e. cc e)
      (input_view-IsServing []) tt refl refl

deletedelegation_no_dot_example :
    deletedelegation list_tree list_nodes no_hash owner_a none_below
      (codes "zone.co.uk")
      (input_view [])
    ≡ some (tt, input_view [])
deletedelegation_no_dot_example =
    deletedelegation_no_dot list_tree list_tree-Walks list_nodes list_nodes-Maps no_hash owner_a
      none_below (codes "zone.co.uk") 107 _ [] (input_view []) refl (omega arith) refl (λ a e. cc e)

abbrev any_address : Family → List ℕ → Option ℕ
any_address family text = some 0

abbrev interface_of : Family → Interface ℕ
interface_of family = record {
  port = codes "8000";
  address = [];
  family = family;
  addr = none;
  user = none;
  pass = none;
}

httpd_start_flags-httpd_create_example :
    httpd_start_flags {Addr = ℕ} (sockaddr_in 0 (pos 8000) ∷ sockaddr_in6 0 (pos 8000) ∷ [])
    ≡ use_dual_stack
unfolding httpd_create
httpd_start_flags-httpd_create_example =
    httpd_start_flags-httpd_create any_address (interface_of af_inet ∷ interface_of af_inet6 ∷ [])
      (sockaddr_in 0 (pos 8000) ∷ sockaddr_in6 0 (pos 8000) ∷ []) refl
