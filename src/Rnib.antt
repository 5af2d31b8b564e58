-- ===== src/Rnib.antt =====
-- pkg/rnib/rnib.go: the questions about the E2 nodes that are asked of the topology service.
-- The service and its messages are of other packages, so they are parameters; a question is answered
-- from one state of the service.
pub mod Laws
use onos_mho.Base.{
  Text, Text-discrete, Bool, true, false, if◌then◌else◌, ite, length, replicate, List, [], ◌∷◌,
  ◌++◌,
}
use onos_mho.Base.Result.{Result, ok, err, panic, not_found, ◌>>=◌}

-- `toposdk.Client` and the messages of `topoapi`, as far as the program reads them.
pub record Topo : Type 1 where
  pub Object : Type 0
  pub E2Node : Type 0
  pub E2Cell : Type 0
  pub RanFunction : Type 0
  pub RcRanFunction : Type 0
  pub ServiceModelInfo : Type 0
  -- `client.Get`, and `client.List` with the filter of the CONTROLS relations, and with that of the
  -- CONTAINS relations of a node.
  pub get : Text → Result Object
  pub list_controls : Result (List Object)
  pub list_contained : Text → Result (List Object)
  -- `Obj.(*topoapi.Object_Relation).Relation.TgtEntityID`, a panic for another kind of object.
  pub tgt_entity_id : Object → Result Text
  -- `GetEntity().GetKindID() == topoapi.E2CELL`
  pub is_e2_cell : Object → Bool
  -- `GetAspect` into either message.
  pub node_aspect : Object → Result E2Node
  pub cell_aspect : Object → Result E2Cell
  -- `GetServiceModels()`, in the order in which `range` visits the map.
  pub service_models : E2Node → List ServiceModelInfo
  pub oid : ServiceModelInfo → Text
  pub name : ServiceModelInfo → Text
  pub ran_functions : ServiceModelInfo → List RanFunction
  -- The field `TypeUrl`, and its getter.
  pub type_url : RanFunction → Text
  pub get_type_url : RanFunction → Text
  -- `prototypes.UnmarshalAny` into an `RCRanFunction`.
  pub unmarshal_any : RanFunction → Result RcRanFunction

module _ (topo : Topo) where
  open topo use {Object, E2Node, E2Cell, ServiceModelInfo}

  unfoldable pub get_e2_node_aspects : Text → Result E2Node
  get_e2_node_aspects node_id = do object ← topo.get node_id; topo.node_aspect object

  -- The loop over the service models.
  unfoldable pub has_oid : Text → List ServiceModelInfo → Bool
  has_oid oid [] = false
  has_oid oid (sm ∷ rest) = ite (Text-discrete (topo.oid sm) oid) true (has_oid oid rest)

  -- A panic inside the service's client would end the process; it is none of the two answers.
  unfoldable pub has_rc_ran_function : Text → Text → Result Bool
  unfolding get_e2_node_aspects has_oid
  has_rc_ran_function node_id oid = elim (get_e2_node_aspects node_id) [
    | ok node ↦ ok (has_oid oid (topo.service_models node))
    | err _ ↦ ok false
    | panic ↦ panic
  ]

  -- The loop of `E2NodeIDs`, which appends to `ids`.
  unfoldable pub append_ids : Text → List Object → List Text → Result (List Text)
  unfolding has_rc_ran_function
  append_ids oid [] ids = ok ids
  append_ids oid (object ∷ rest) ids = do
    e2_node_id ← topo.tgt_entity_id object
    found ← has_rc_ran_function e2_node_id oid
    append_ids oid rest (if found then ids ++ e2_node_id ∷ [] else ids)

  -- `make([]topoapi.ID, len(objects))` and then the loop.
  unfoldable pub e2_node_ids : Text → Result (List Text)
  unfolding append_ids
  e2_node_ids oid = do
    objects ← topo.list_controls
    append_ids oid objects (replicate (length objects) [])

  -- The loop of `GetCells`: an object without the aspect is passed over.
  unfoldable pub collect_cells : List Object → Result (List E2Cell)
  collect_cells [] = ok []
  collect_cells (object ∷ rest) =
      let others = collect_cells rest in
      if topo.is_e2_cell object
      then elim (topo.cell_aspect object) [
        | ok cell ↦ elim others [ ok cells ↦ ok (cell ∷ cells) | err e ↦ err e | panic ↦ panic ]
        | err _ ↦ others
        | panic ↦ panic
      ]
      else others

  -- The test after the loop.
  unfoldable pub some_cells : List E2Cell → Result (List E2Cell)
  some_cells [] = err not_found
  some_cells (cell ∷ rest) = ok (cell ∷ rest)

  unfoldable pub get_cells : Text → Result (List E2Cell)
  unfolding collect_cells some_cells
  get_cells node_id = do
    objects ← topo.list_contained node_id
    cells ← collect_cells objects
    some_cells cells
