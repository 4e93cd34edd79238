-- ===== src/Lib.antt =====
-- k8s-ai-operator: a Kubernetes operator that gives each ModelEndpoint resource a Service in front of
-- an HTTP proxy to AWS Bedrock, and keeps the resources' status, Bedrock's guardrails and prompt
-- templates in step with their specs.
--
-- The parts and how they interact. A user's ModelEndpoint passes the webhooks (Webhook) before it is
-- stored. Its controller (Controller.Endpoint) checks through the Bedrock client (Bedrock) that the model
-- can be reached, writes the Service and reports in the status. The proxy (Proxy) reads that status:
-- it forwards a request, or a rendered PromptTemplate, only to an available endpoint, through the same
-- Bedrock client, and records metrics (Metrics) and the cost of the call. GuardrailPolicy and
-- PromptTemplate have controllers of their own (Controller.Guardrail, Controller.Template). The process
-- (Manager) makes the one Bedrock client, and registers the controllers, the webhooks and the proxy's
-- server with controller-runtime's manager, which runs them.
--
-- The files and the code that they are about:
--   Base/*                   texts as lists of bytes, the integers over native numbers, results, state,
--                            dictionaries, and the floating-point operations as a record
--   Api/*                    api/v1alpha1/*_types.go: specs and statuses as records; Api/Meta also
--                            holds what the operator uses of ObjectMeta and Condition
--   Api/Scheme               api/v1alpha1/groupversion_info.go and the init functions of the types
--   Api/Memory               memory with addresses, nil, pointers and slices, and what a deep copy is
--   Api/DeepCopy/*           api/v1alpha1/zz_generated_deepcopy.go: the structs as they lie in memory, and
--                            DeepCopyInto, DeepCopy and DeepCopyObject of each type
--   Metrics                  internal/metrics/metrics.go: metrics, labels, and calls as values; its
--                            child Registration has their names and buckets, and init
--   Bedrock/Client           internal/bedrock/client.go: NewClient, assumeRoleConfig, runtimeClient,
--                            controlClient, InvalidateCache; NewGuardrailClient of guardrail.go
--   Bedrock/Client/Threads   runtimeClient in goroutines that run at once: the look under the read lock
--                            and the part under the write lock are one step each
--   Bedrock/Client/Calls     runtimeClient, controlClient and InvalidateCache in goroutines that run at
--                            once, with the answers in the order in which the locks settle them
--   Bedrock/Converse         internal/bedrock/client.go: Invoke and its request and response types
--   Bedrock/Cost             internal/bedrock/cost.go: Pricing, CalculateCost, KnownModel
--   Bedrock/Health           internal/bedrock/health.go: CheckModelAvailability, HealthCheck
--   Bedrock/Guardrail        internal/bedrock/guardrail.go: the calls of GuardrailClient, DefaultBlockedInput
--   Webhook/Validate, Arn    internal/webhook/modelendpoint_webhook.go: the validator and its pattern
--   Webhook/Default          the defaulter of the same file
--   Proxy/Path, Limiter      internal/proxy/handler.go: parsePathSegments, getLimiter with Allow
--   Proxy/Limiter/Requests   getLimiter and Allow of requests in goroutines that run at once, with the
--                            limiters behind pointers: each of the two is one step
--   Proxy/Http               the types of the same file, and the cap on the token limit
--   Proxy/Invoke             HandleInvoke, split at its calls: serve_endpoint from fetchEndpoint on,
--                            throttle for the rate limit, forward from the call of Bedrock on; its child
--                            Outcome has the replies with their reasons
--   Proxy/Render             HandleRender, split in the same way, and renderTemplate
--   Proxy/Server             internal/proxy/server.go: NewServer with its routes, handleHealthz; its child
--                            Running is Start, as steps of the listener and of the select
--   Manager                  cmd/manager/main.go: flags, environment, scheme, options, set-up and
--                            exit code; Manager/Kinds has the kinds that the controllers watch
--   Controller/Conditions, Labels   internal/controller/modelendpoint_controller.go: setCondition,
--                            conditionStatus and sanitizeLabel
--   Controller/Conditions/InPlace   setCondition on a slice in memory
--   Controller/Conditions/View      lists of conditions up to what readers find in them, as a quotient
--   Controller/Endpoint      Reconcile and handleDeletion of the same file; Endpoint/Service is
--                            reconcileService, Endpoint/Synced what a status says after it, and
--                            Endpoint/Report the lines of Reconcile that prepare the patch, on memory
--   Controller/Guardrail     internal/controller/guardrailpolicy_controller.go; Guardrail/Inputs builds
--                            the inputs of the SDK calls, and Guardrail/Life is the life of a policy, as steps of
--                            its users, the API server and the reconciler
--   Controller/Template      internal/controller/prompttemplate_controller.go; Template/Edits is a reconcile
--                            in which users change the template between the read and the write
--   System                   fetchEndpoint of handler.go over the cluster that the controllers write, and
--                            the proxy after a reconcile; System/Policies is the policy controller with
--                            the guardrail client that main makes, System/Templates rendering after a reconcile
--                            of the template, and System/Admission the limiter after the webhooks
--   Controller/Cluster       what the controllers take from controller-runtime
--   Tests/*                  runs at concrete inputs, and the theorems there
--
-- State is passed explicitly. The proxy's Handler holds the limiter map, the Bedrock client with
-- the state of what it talks to, and the metric calls made so far; a reconciler's World holds the
-- cluster, Bedrock and the metric calls. Only Api/Memory and what stands on it have addresses:
-- there a resource is a struct of pointers, and Endpoint/Report shows that the lines which prepare
-- the status patch, with the deep copy that becomes the patch's base, do what the model on values
-- does. A panic of a handler is a reply of its own: a write to a nil map, or a counter that is given a
-- negative value, as Prometheus documents, after which no later call is made. A Go error is its text. The int32 and int64
-- values of the source are integers: the code only compares, copies and converts them. Text is
-- bytes, as in Go. Every loop is a structural recursion on a list, so there is no fuel.
--
-- Parameters, for code that is not in the repository: the AWS SDK with JSON encoding (Sdk,
-- GuardrailSdk), the token bucket of golang.org/x/time/rate (BucketOps), text/template, float64
-- (FloatOps), the ServeMux of net/http (Mux), Prometheus with its registry (Prometheus), the scheme
-- builder (Builders), the manager, the AWS configuration and the registrations (Platform), the API
-- client, finalizer helpers and CreateOrUpdate of controller-runtime (Kind, Finalizers, Services),
-- the verbs %q and %d, and the times of the clock. The hypotheses on them are IsRounded for
-- float64, IsMux for the ServeMux, IsPrometheus for the registry, IsScheme and Keeps for schemes,
-- IsDeep and IsObjectMeta for the copy of ObjectMeta, AreServices for CreateOrUpdate,
-- AreFinalizers, IsKept and IsServer for the API server, KeepsEndpoints for the Services, and
-- ParseAlike for text/template, whose parser is given the template's name, "validate" in the
-- controller and "prompt" in the proxy. IsKept says that a read sees an earlier write: the manager's
-- client reads from a cache, and does so once the cache has caught up.
--
-- Not modelled: logging and contexts, the help texts of metrics, TypeMeta and ListMeta, the paths
-- at which the webhooks are registered, and the steps of a handler while another one runs: handlers
-- are modelled as one step each, and only the calls of the client's cache and of the limiters as
-- interleaved.
pub mod Base
pub mod Api
pub mod Bedrock
pub mod Metrics
pub mod Webhook
pub mod Proxy
pub mod Controller
pub mod Manager
pub mod System
pub mod Tests
