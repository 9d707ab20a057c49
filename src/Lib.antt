-- ===== src/Lib.antt =====
-- Verification of super-scheduling, a Kubernetes scheduler plugin and a descheduler strategy that spread the pods of an
-- application over topology values (zones, say) by the replicas that a TopologySchedulingPolicy places on each value.
--
-- The program's parts and the files that model them:
--
--  Api        pkg/apis/scheduling/v1alpha1 and pkg/common: the policy, its placements, the constraint and the topology
--             pair. Api/Kubernetes and Api/Framework have the Kubernetes objects and the interfaces that the code
--             calls, with the fields that it reads; they are parameters of the model.
--  Util       pkg/util/utils.go: CovertPolicy, IsVirtualNode, IsVirtualPod, GetClusterID, ConvertAnnotations; and
--             chunkSizeFor of pkg/util/parallelism.go (Util/Parallelism).
--  Topology   pkg/topologyscheduling/topology_scheduling.go, the scheduler plugin. PreFilter counts the matching pods
--             of each topology value (Topology/PreFilter) and stores a PreFilterState (Topology/State) in the
--             CycleState; Filter and Score read it (Topology/Nodes, Topology/Checks, Topology/Score), and AddPod,
--             RemovePod, Reserve and Unreserve change its counters. Topology/Plugin has the methods themselves.
--  Descheduler  pkg/descheduler/strategies/topologyscheduling.go, the strategy that evicts the pods of a policy which
--             exceed the replicas of their value (Descheduler/Strategy), and descheduler.go, the rounds that run it
--             with the strategies of the descheduler library (Descheduler/Rounds).
--  Config     pkg/apis/config: the plugins' arguments in their internal form and as v1beta1, and the conversions between
--             them (Config/Conversion).
--  Multicluster  pkg/multicluster: a virtual node stands for a cluster; Filter asks that cluster's scheduler
--             (Multicluster/Plugin), which New starts (Multicluster/Startup) with the clients of
--             Multicluster/Config.
--  DeepCopy   the generated deep copies of pkg/apis: of single types, of the policies (DeepCopy/Policies) and of the plugins'
--             arguments (DeepCopy/Arguments). DeepCopy/Policies/Copier is the interface by which their proofs are put together.
--  Lister     pkg/generated/listers: the lister of the policies over an informer's indexer, which fills the interface that
--             the plugin and the strategy take.
--  Client     pkg/generated/clientset: the policies' client, whose methods send requests (Client/Typed, with the timeouts of
--             Client/Timeout), its double for tests, whose methods record actions (Client/Fake), and how clientsets are made
--             (Client/Clientset). Client/Server is a server as both clients see it, and Client/Agreement compares them.
--  Informers  pkg/generated/informers: the factory (Informers/Factory), with sequences of calls of its methods as a relation,
--             and the policies' informer over Client, which ends in the lister of Lister (Informers/Policy).
--  Rollout    Topology/Rollout: not code but runs of the plugin, cycle by cycle: each cycle calls PreFilter and Filter on the
--             current snapshot and binds the pod to a node that Filter lets it onto.
--  Commands   cmd/descheduler: the command line of the descheduler, whose Run is that of Descheduler (Commands/Descheduler), and its
--             version, over the bytes of texts (Commands/Version).
--  Prelude    lists, maps, 32-bit integers, results and panics for all of them.
--
-- How the code is modelled. The map TpPairToMatchNum holds pointers to counters; Topology/Counters has a heap of cells, a
-- pointer is its address, and Clone and updateWithPod work on the heap, so that sharing is visible. A Go map is an
-- association list with distinct keys, and a range over it visits the entries in an order that theorems do not rely on.
-- int32 arithmetic wraps around. A nil pointer is none; its dereference, and an index out of range, is the outcome panics.
-- The workers that count the nodes add atomically: their work is a permutation of the nodes. float64 is a parameter with
-- monotone rounding and exact small integers. Error values keep the texts that the code wraps around them.
-- All loops are structural recursion, so there is no fuel.
--
-- Not modelled: logging; the main of cmd/scheduler, the object tracker behind the client for tests, the registration of types with
-- schemes, and Run of the multicluster scheduler, which starts informers and waits.
pub mod Prelude
pub mod Api
pub mod Util
pub mod Topology
pub mod Descheduler
pub mod DeepCopy
pub mod Lister
pub mod Config
pub mod Multicluster
pub mod Informers
pub mod Client
pub mod Commands
mod Tests
