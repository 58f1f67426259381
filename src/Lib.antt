-- ===== src/Lib.antt =====
-- Verification of the JavaScript of the web pages of X-Trace and Retro.
--
-- The pages get reports from the X-Trace server, JSON objects with an id and the ids of their
-- parents, and draw them as a graph. xtrace_utils.js cleans the reports, filters them and builds
-- the graph; Graph.js has the graph with its hidden nodes; History.js hides and restores
-- selections of nodes; kernels/KernelGraph.js has another graph, of labelled nodes, by which
-- traces are compared; swimlane/data/Workload.js groups reports by machine, process and thread,
-- to be drawn in time. The pages of Retro get reports of resource usage, and draw them as series over
-- time. All paths below are under
-- xtrace/visualization/src/main/resources/webui/html/interactive/js, but for Data.js and
-- FilterDataSet.js, which are under retro/visualization/src/main/resources/webui/js.
--
-- Files and code:
--   Report          the fields of a report that the modelled code reads
--   Sanitize        sanitizeReports of xtrace_utils.js: the loop with its removals in place
--   Filter          filter_reports of xtrace_utils.js and its callers. Defs has the code, Maps the
--                   three maps, Remap the recursive remap_parents, Result what is returned, Merge
--                   the callers
--   Graph           Node and Graph of Graph.js. Explore has the search that Graph.js writes out in
--                   getVisibleParents, getVisibleChildren and getVisibleLinks, Ends its termination,
--                   Exact what it finds, Visible, Duality and Links its three users; Trail has the search
--                   of getEntirePathNodes and getEntirePathLinks, Covers and
--                   PathExact what it meets and finds, EntirePath the two functions; Between and
--                   BetweenLem are about getNodesBetween
--   CreateGraph     createGraphFromReports of xtrace_utils.js, which joins Filter and Graph: Named which
--                   report an id stands for, Linked the nodes and edges; ToJson has
--                   createJSONFromVisibleGraph
--   History         History and DirectedAcyclicGraphHistory of History.js
--   KernelGraph     KernelNode and KernelGraph of kernels/KernelGraph.js, one file for the
--                   invariant (IsWf) and one for each operation that changes the graph; FromJson has
--                   fromJSON with the labels of hash_report, Merges which nodes it keeps
--   Kernel          NodeCountKernel of kernels/NodeCountKernel.js on these graphs: Defs has the
--                   code, Count the sizes of the label sets, NodeCount what the score counts; Rounds
--                   and Stability have WeisfeilerLehmanKernel.js, Numbers its new labels, Agree when they
--                   agree, Bounded the stability of the nodes
--   Cluster         xtrace_cluster.js: Defs has the tasks for the worker of kernels/KernelWorker.js and
--                   its answers, Tasks which pairs are compared, Edges what is drawn, Weights the weights of
--                   the edges and what a click selects
--   Compare         xtrace_compare.js: Fractions has the quotients that it compares, Defs the scores of
--                   the reports, Scores their bounds
--   CriticalPath    critical_path of swimlane/criticalpath.js: Defs has the code, Latest which
--                   path it returns, Events filter_criticalpath_events
--   Layout          the heights, offsets and spacing of swimlane/data/VizLane.js, VizGroup.js and
--                   VizLayout.js: Defs has the code, Apart where it places the lanes, Tenants the
--                   layouts of a workload
--   Fetch           getReports of xtrace_utils.js as a step relation: Defs has the two callbacks
--                   and the steps, Once when it calls back, Ends and Live that the requests end, Asked what
--                   is requested; Gc has getGCReports
--   Selectable      the selection by clicks of Selectable.js: Defs has the handlers, Anchor and
--                   Within what a click keeps
--   Menu            the context menus of ContextMenu.js: Defs and Compare have the options and their
--                   effects, Preview compares the preview of an option with its click, Offer says
--                   what the offered options do
--   Retro           the resource graphs of Retro: Series, Steps and Prune have the series of Data.js,
--                   Reports its reports, DataSet, Collect and Sums its data sets; Recent has
--                   FilterDataSet.js, Current what its charts show, Chosen which groups and filters are
--                   chosen, Session sessions with it
--   Page            xtrace_graph.js with what DirectedAcyclicGraph.js draws, which joins Graph, History and
--                   Selectable: Defs has the state and the handlers, Drawn what is drawn,
--                   Session what holds after any events, Highlight the path under the mouse
--   Workload        swimlane/data/Workload.js: Spans has events, spans and threads, Tasks what groups
--                   them, Loads the workload; Groups has group_reports_by_field of xtrace_utils.js,
--                   Events and Counted which events a task has, Loaded what addTask keeps,
--                   Collected and Collections the garbage collections
--   Leads           chains through hidden nodes, the notion that Filter and Graph share
--   Prelude         shared names, JavaScript objects as maps (Dict) and as sets of keys (KeySet)
--
-- How the code is modelled. An object that is used as a map is an association list in the order of
-- insertion, and an id is a string. JavaScript lists the keys that look like small integers first,
-- and finds the names of Object.prototype in every object: the ids are taken to be neither, and no
-- theorem on sets of ids depends on the order; what a workload holds is sorted by its start, so the
-- order of keys matters there for equal starts only. A graph node is named by its id, and the graph's map
-- of nodes is the store of the node objects; a report in Filter is named by its position in the
-- array. Code that changes an object returns the new state. A TypeError, and a recursion that does
-- not return, is the value none. The order in which JavaScript sorts texts, the code units of a text, and
-- the text of a number are parameters; the amounts of Retro's reports are of any type with the sum and
-- quotient that the code uses, and times of any type with the comparison and the arithmetic. The scores
-- of kernels are exact fractions, where the browser rounds; 0 / 0 stands for NaN. Of edges that d3 takes
-- for the same, since the ids of their ends make the same text, the page draws the first.
--
-- Fuel. The searches of Graph.js mark a node before they go on, so they end on every graph; their
-- fuel is one more than the number of nodes. remap_parents marks a report when it is finished, and
-- recurs for ever on a cycle of removed reports; it takes its fuel as an argument, and is enough if
-- it is above the ranks, numbers that fall from a report to its removed parents. The loop of
-- sanitizeReports takes one round more than the array is long. critical_path loops for ever on a
-- cycle, so its fuel is an argument too, enough if it is above a rank that falls from a report to its
-- parents. getReports takes no fuel: its steps are a relation. do_calculate takes the number of rounds
-- after the first, which is the kernel's depth less one, calculate_node_stability the depth.
-- getNodesBetween takes its fuel as an argument, and is enough above the rank of the first node.
--
-- Not modelled: drawing, network requests and console output, which are calls of d3, dagre, jQuery and
-- the browser; the previews, the viewport and the layout of the graph page; the edges of the swimlanes,
-- and the zoom, tooltips and buttons of their pages, whose state is pixels and scales of d3; the colours of
-- the page that compares two traces, which need a power of a rounded number, and the drawing of Retro's
-- graphs; the taking apart of the page's address and of texts of ids; the parts of the repository that are
-- not JavaScript.
mod Prelude
pub mod Report
mod Leads
pub mod KernelGraph
pub mod Graph
pub mod History
pub mod Filter
pub mod Sanitize
pub mod CreateGraph
pub mod Kernel
pub mod CriticalPath
pub mod Layout
pub mod Fetch
pub mod Selectable
pub mod Menu
pub mod Retro
pub mod Cluster
pub mod Workload
pub mod Page
pub mod Compare
